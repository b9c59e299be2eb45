-- ===== src/MetaStore/Keys.antt =====
-- The order of keys in a store, and where the keys with a prefix stand in it.
use gekko_fwd.Base.{◌≡◌, refl, [], ◌∷◌, Bool, true, false, ◌&&◌, ◌||◌, none, ◌==◌, arith, ltb}
use gekko_fwd.Decimal.{Bytes}
use gekko_fwd.PathUtil.{behind}
use gekko_fwd.MetaStore.Scan.{Rows}

-- The order of keys, by their bytes.
abbrev pub bytes_le : Bytes → Bytes → Bool
bytes_le [] t = true
bytes_le (c ∷ s) [] = false
bytes_le (c ∷ s) (d ∷ t) = let rest = bytes_le s t in ltb c d || c == d && rest

abbrev pub IsOrdered : Bytes → Rows → Type 0
IsOrdered low [] = Unit {0}
IsOrdered low ((key, value) ∷ rows) = (bytes_le low key ≡ true) × IsOrdered key rows

abbrev pub AllBefore : Bytes → Rows → Type 0
AllBefore root [] = Unit {0}
AllBefore root ((key, value) ∷ rows) = (bytes_le root key ≡ false) × AllBefore root rows

-- Behind the keys with a prefix comes none with it.
pub behind-later :
    (root a b : Bytes)
    → bytes_le root a ≡ true
    → behind root a ≡ none
    → bytes_le a b ≡ true
    → behind root b ≡ none
unfolding behind
behind-later [] a b low gone later = cc
behind-later (r ∷ root) [] b low gone later = cc
behind-later (r ∷ root) (c ∷ a) [] low gone later = refl
behind-later (r ∷ root) (c ∷ a) (d ∷ b) low gone later = ground (arith, behind-later root a b)

pub behind-before : (root a : Bytes) → bytes_le root a ≡ false → behind root a ≡ none
unfolding behind
behind-before [] a h = cc
behind-before (r ∷ root) [] h = refl
behind-before (r ∷ root) (c ∷ a) h = ground (arith, behind-before root a)

pub bytes_le_trans :
    (a b c : Bytes) → bytes_le a b ≡ true → bytes_le b c ≡ true → bytes_le a c ≡ true
bytes_le_trans [] b c h k = refl
bytes_le_trans (x ∷ a) [] c h k = cc
bytes_le_trans (x ∷ a) (y ∷ b) [] h k = cc
bytes_le_trans (x ∷ a) (y ∷ b) (z ∷ c) h k = ground (arith, bytes_le_trans a b c)

pub bytes_le_refl : (s : Bytes) → bytes_le s s ≡ true
bytes_le_refl [] = refl
bytes_le_refl (c ∷ s) = ground (arith, bytes_le_refl s)
