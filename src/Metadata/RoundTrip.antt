-- ===== src/Metadata/RoundTrip.antt =====
-- Parsing what src/global/metadata.cpp serializes, under every choice of the optional members.
use gekko_fwd.Base.{
  ℕ, ◌%◌, ◌^◌, ◌≤◌, ◌<◌, ◌≡◌, refl, ◌∷◌, ◌++◌, Bool, true, false, ◌||◌, Option, none, some, arith,
  length, if◌then◌else◌,
}
use gekko_fwd.Base.Words.{word, sign_bit}
use gekko_fwd.Decimal.{Bytes, Parsed, to_string, stoul, stol}
use gekko_fwd.Decimal.RoundTrip.{
  StopsDigits, stoul-to_string, stol-to_string, stol-to_string_overflow,
}
use gekko_fwd.Metadata.{
  Metadata, Config, msp, is_lnk, empty, optional_field, print_optional, next_field, parse,
  serialize,
}

-- What the members' types and the assertions of the constructors ensure; times and sizes are those
-- that the signed parser reads.
pub record Fits (md : Metadata) : Type 0 where
  pub mode_fits : md.mode < 2 ^ 32
  pub size_fits : md.size < sign_bit
  pub atime_fits : md.atime < sign_bit
  pub mtime_fits : md.mtime < sign_bit
  pub ctime_fits : md.ctime < sign_bit
  pub link_count_fits : md.link_count < word
  pub blocks_fits : md.blocks < word
  pub only_links : (empty md.target_path || is_lnk md.mode) ≡ true

abbrev pub stored : Bool → ℕ → ℕ
stored used n = if used then n else 0

pub stored_idem : (used : Bool) (n : ℕ) → stored used (stored used n) ≡ stored used n
stored_idem true n = refl
stored_idem false n = refl

-- The members that the configuration stores, and 0 for the others: no text has those.
abbrev pub kept : Config → Metadata → Metadata
kept cfg md = record {
  atime = stored cfg.use_atime md.atime;
  mtime = stored cfg.use_mtime md.mtime;
  ctime = stored cfg.use_ctime md.ctime;
  mode = md.mode;
  link_count = stored cfg.use_link_cnt md.link_count;
  size = md.size;
  blocks = stored cfg.use_blocks md.blocks;
  target_path = md.target_path;
}

abbrev pub read_member : Bool → ℕ → ℕ → ℕ
read_member used uninitialised n = if used then n else uninitialised

pub read_member-stored :
    (used : Bool) (uninitialised n : ℕ)
    → read_member used uninitialised (stored used n) ≡ read_member used uninitialised n
read_member-stored true uninitialised n = refl
read_member-stored false uninitialised n = refl

-- An object that is made from the text of another: the members that are not stored are those of an
-- uninitialised object.
abbrev pub read_back : Config → Metadata → Metadata
read_back cfg md = record {
  atime = read_member cfg.use_atime cfg.uninitialised.atime md.atime;
  mtime = read_member cfg.use_mtime cfg.uninitialised.mtime md.mtime;
  ctime = read_member cfg.use_ctime cfg.uninitialised.ctime md.ctime;
  mode = md.mode;
  link_count = read_member cfg.use_link_cnt cfg.uninitialised.link_count md.link_count;
  size = md.size;
  blocks = read_member cfg.use_blocks cfg.uninitialised.blocks md.blocks;
  target_path = md.target_path;
}

-- The parser `number` reads what is printed below `ends`.
abbrev Reads : (Bytes → Option Parsed) → (ℕ → Bytes) → ℕ → Type 0
Reads number format_int ends =
    (n : ℕ) (rest : Bytes)
    → n < ends
    → StopsDigits rest
    → (r : ℕ) × (number (format_int n ++ rest) ≡ some (record { value = n; read = r; rest = rest }))

module _ (format_int : ℕ → Bytes) where
  StopsDigits-print_optional :
      (used : Bool) (n : ℕ) (rest : Bytes)
      → StopsDigits rest
      → StopsDigits (print_optional format_int used n rest)
  unfolding print_optional
  StopsDigits-print_optional true n rest h = refl
  StopsDigits-print_optional false n rest h = h

  -- What follows the size.
  abbrev size_tail : Config → Metadata → Bytes
  size_tail cfg md = print_optional format_int cfg.use_atime md.atime (
      print_optional format_int cfg.use_mtime md.mtime (
        print_optional format_int cfg.use_ctime md.ctime (
          print_optional format_int cfg.use_link_cnt md.link_count
            (print_optional format_int cfg.use_blocks md.blocks (msp ∷ md.target_path)))))

  size_tail-StopsDigits : (cfg : Config) (md : Metadata) → StopsDigits (size_tail cfg md)
  size_tail-StopsDigits cfg md = StopsDigits-print_optional cfg.use_atime _ _ (
      StopsDigits-print_optional cfg.use_mtime _ _ (
        StopsDigits-print_optional cfg.use_ctime _ _ (
          StopsDigits-print_optional cfg.use_link_cnt _ _
            (StopsDigits-print_optional cfg.use_blocks _ _ refl))))

  next_field-print :
      (number : Bytes → Option Parsed) (ends : ℕ) (n : ℕ) (rest : Bytes)
      → Reads number format_int ends
      → n < ends
      → StopsDigits rest
      → next_field number (msp ∷ (format_int n ++ rest)) ≡ some (n, rest)
  unfolding next_field
  next_field-print number ends n rest reads fits stops = rw ((reads n rest fits stops).1)

  optional_field-print :
      (number : Bytes → Option Parsed) (ends : ℕ) (used : Bool) (uninitialised n : ℕ) (rest : Bytes)
      → Reads number format_int ends
      → n < ends
      → StopsDigits rest
      → optional_field used uninitialised number (print_optional format_int used n rest)
        ≡ some (read_member used uninitialised n, rest)
  unfolding optional_field print_optional
  optional_field-print number ends true uninitialised n rest reads fits stops =
      next_field-print number ends n rest reads fits stops
  optional_field-print number ends false uninitialised n rest reads fits stops = refl

  print_optional-read_member :
      (used : Bool) (uninitialised n : ℕ) (rest : Bytes)
      → print_optional format_int used (read_member used uninitialised n) rest
        ≡ print_optional format_int used (stored used n) rest
  unfolding print_optional
  print_optional-read_member true uninitialised n rest = refl
  print_optional-read_member false uninitialised n rest = refl

  -- The text has none of the members that are not stored.
  pub serialize-read_back :
      (cfg : Config) (md : Metadata) (n : ℕ)
      → serialize format_int cfg (record (read_back cfg md) { size = n })
        ≡ serialize format_int cfg (record (kept cfg md) { size = n })
  unfolding serialize
  serialize-read_back cfg md n = simp (serialize, print_optional-read_member)

  module _ (decimal : (n : ℕ) → format_int n ≡ to_string n) where
    stoul-Reads : Reads stoul format_int word
    stoul-Reads n rest fits stops =
        (length (to_string n), rw (decimal n) (stoul-to_string n rest fits stops))

    stol-Reads : Reads stol format_int sign_bit
    stol-Reads n rest fits stops =
        (length (to_string n), rw (decimal n) (stol-to_string n rest fits stops))

    -- With a decimal `format_int`: whatever members the configuration stores, parsing the
    -- serialized form of metadata within the ranges of `Fits` gives the mode, the size, the target
    -- and the stored members back; the other members are those of an uninitialised object.
    pub parse-serialize :
        (cfg : Config) (md : Metadata)
        → Fits md
        → parse cfg (serialize format_int cfg md) ≡ some (read_back cfg md)
    unfolding parse serialize
    parse-serialize cfg md fits =
        let small : md.mode % 2 ^ 32 ≡ md.mode = omega arith in
        let t6 : Bytes = msp ∷ md.target_path in
        let t5 = print_optional format_int cfg.use_blocks md.blocks t6 in
        let s5 : StopsDigits t5 = StopsDigits-print_optional cfg.use_blocks md.blocks t6 refl in
        let t4 = print_optional format_int cfg.use_link_cnt md.link_count t5 in
        let s4 : StopsDigits t4 = StopsDigits-print_optional cfg.use_link_cnt md.link_count t5 s5 in
        let t3 = print_optional format_int cfg.use_ctime md.ctime t4 in
        let s3 : StopsDigits t3 = StopsDigits-print_optional cfg.use_ctime md.ctime t4 s4 in
        let t2 = print_optional format_int cfg.use_mtime md.mtime t3 in
        let s2 : StopsDigits t2 = StopsDigits-print_optional cfg.use_mtime md.mtime t3 s3 in
        let t1 = print_optional format_int cfg.use_atime md.atime t2 in
        let s1 : StopsDigits t1 = StopsDigits-print_optional cfg.use_atime md.atime t2 s2 in
        rw (
          (stoul-Reads md.mode (msp ∷ (format_int md.size ++ t1)) (omega arith) refl).1,
          next_field-print stol sign_bit md.size t1 stol-Reads fits.size_fits s1,
          optional_field-print stol sign_bit cfg.use_atime cfg.uninitialised.atime md.atime t2
              stol-Reads fits.atime_fits s2,
          optional_field-print stol sign_bit cfg.use_mtime cfg.uninitialised.mtime md.mtime t3
              stol-Reads fits.mtime_fits s3,
          optional_field-print stol sign_bit cfg.use_ctime cfg.uninitialised.ctime md.ctime t4
              stol-Reads fits.ctime_fits s4,
          optional_field-print stoul word cfg.use_link_cnt cfg.uninitialised.link_count
              md.link_count t5 stoul-Reads fits.link_count_fits s5,
          optional_field-print stoul word cfg.use_blocks cfg.uninitialised.blocks md.blocks t6
              stoul-Reads fits.blocks_fits refl,
          small,
          fits.only_links,
        )

    -- With a decimal `format_int` and a mode below 2 ^ 64: a size of 2 ^ 63 bytes or more is
    -- printed unsigned and read back signed, and the parser throws.
    pub parse-serialize_size_overflow :
        (cfg : Config) (md : Metadata)
        → md.mode < word
        → sign_bit ≤ md.size
        → parse cfg (serialize format_int cfg md) ≡ none
    unfolding parse serialize next_field
    parse-serialize_size_overflow cfg md mode_fits big =
        let t1 = size_tail cfg md in
        rw (
          (stoul-Reads md.mode (msp ∷ (format_int md.size ++ t1)) mode_fits refl).1,
          decimal md.size,
          stol-to_string_overflow md.size t1 big (size_tail-StopsDigits cfg md),
        )
