-- ===== src/Metadata.antt =====
-- src/global/metadata.cpp and include/global/metadata.hpp: the metadata record of a path, its text
-- form in the key-value store, and the parser. `fmt::format_int` belongs to another library and is
-- a parameter; the `config::metadata::use_*` constants are the fields of `Config`. Texts are lists of
-- bytes without a NUL, and a failing assertion or a thrown exception is `none`.
pub mod RoundTrip
use gekko_fwd.Base.{
  ℕ, ◌/◌, ◌%◌, ◌^◌, [], ◌∷◌, ◌++◌, Bool, true, false, not, ◌&&◌, ◌||◌, Option, none, some, ◌==◌,
  if◌then◌else◌,
}
use gekko_fwd.Decimal.{Bytes, Parsed, stoul, stol}

pub record Metadata : Type 0 where
  pub atime : ℕ
  pub mtime : ℕ
  pub ctime : ℕ
  pub mode : ℕ
  pub link_count : ℕ
  pub size : ℕ
  pub blocks : ℕ
  pub target_path : Bytes

pub record Config : Type 0 where
  pub use_atime : Bool
  pub use_mtime : Bool
  pub use_ctime : Bool
  pub use_link_cnt : Bool
  pub use_blocks : Bool
  -- What an object reads as in the members that its constructor leaves uninitialised. It is any
  -- value, but one for all objects.
  pub uninitialised : Metadata

-- include/config.hpp, with some values for the uninitialised members.
abbrev pub config : Config
config = record {
  use_atime = false;
  use_mtime = false;
  use_ctime = false;
  use_link_cnt = false;
  use_blocks = false;
  uninitialised = record {
    atime = 7;
    mtime = 7;
    ctime = 7;
    mode = 7;
    link_count = 7;
    size = 7;
    blocks = 7;
    target_path = [];
  };
}

-- '|'
abbrev pub msp : ℕ
msp = 124

-- The file type bits of <sys/stat.h>.
abbrev pub s_ifmt : ℕ → ℕ
s_ifmt mode = mode / 4096 % 16

abbrev pub is_dir : ℕ → Bool
is_dir mode = s_ifmt mode == 4

abbrev pub is_reg : ℕ → Bool
is_reg mode = s_ifmt mode == 8

abbrev pub is_lnk : ℕ → Bool
is_lnk mode = s_ifmt mode == 10

-- (S_IRWXU | S_IRWXG | S_IRWXO) | S_IFLNK
abbrev pub link_mode : ℕ
link_mode = 0o120777

abbrev pub empty : Bytes → Bool
empty [] = true
empty (c ∷ s) = false

abbrev pub starts_with_slash : Bytes → Bool
starts_with_slash [] = false
starts_with_slash (c ∷ s) = c == b'/'

abbrev pub assert_that {ℓ} : {A : Type ℓ} → Bool → A → Option A
assert_that b a = if b then some a else none

-- Metadata(const mode_t mode)
unfoldable pub of_mode : ℕ → Option Metadata
of_mode mode = assert_that (is_dir mode || is_reg mode) (record {
  atime = 0;
  mtime = 0;
  ctime = 0;
  mode = mode;
  link_count = 0;
  size = 0;
  blocks = 0;
  target_path = [];
})

-- Metadata(const mode_t mode, const std::string& target_path)
unfoldable pub of_link : ℕ → Bytes → Option Metadata
of_link mode target_path =
    assert_that
      ((is_lnk mode || is_dir mode || is_reg mode)
        && (empty target_path || is_lnk mode)
        && (empty target_path || starts_with_slash target_path))
      (record {
        atime = 0;
        mtime = 0;
        ctime = 0;
        mode = mode;
        link_count = 0;
        size = 0;
        blocks = 0;
        target_path = target_path;
      })

infixl 5 ◌>>=◌
abbrev pub ◌>>=◌ {ℓ κ} : {A : Type ℓ} {B : Type κ} → Option A → (A → Option B) → Option B
none >>= f = none
some a >>= f = f a

-- assert(*ptr == MSP), then the number behind it.
unfoldable pub next_field : (Bytes → Option Parsed) → Bytes → Option (ℕ × Bytes)
next_field number [] = none
next_field number (c ∷ s) = if c == msp then (number s >>= λ p. some (p.value, p.rest)) else none

-- if (use_…) { … }: a member that is not read stays as it is.
unfoldable pub optional_field : Bool → ℕ → (Bytes → Option Parsed) → Bytes → Option (ℕ × Bytes)
optional_field used uninitialised number s =
    if used then next_field number s else some (uninitialised, s)

abbrev pub link_target : Bytes → Option Bytes
link_target [] = none
link_target (c ∷ s) = if c == msp then some s else none

-- Metadata(const std::string& binary_str)
unfoldable pub parse : Config → Bytes → Option Metadata
parse cfg binary_str = do
  m ← stoul binary_str
  (size, s1) ← next_field stol m.rest
  (atime, s2) ← optional_field cfg.use_atime cfg.uninitialised.atime stol s1
  (mtime, s3) ← optional_field cfg.use_mtime cfg.uninitialised.mtime stol s2
  (ctime, s4) ← optional_field cfg.use_ctime cfg.uninitialised.ctime stol s3
  (link_count, s5) ← optional_field cfg.use_link_cnt cfg.uninitialised.link_count stoul s4
  (blocks, s6) ← optional_field cfg.use_blocks cfg.uninitialised.blocks stoul s5
  target_path ← link_target s6
  let mode = m.value % 2 ^ 32
  assert_that (empty target_path || is_lnk mode) (record {
    atime = atime;
    mtime = mtime;
    ctime = ctime;
    mode = mode;
    link_count = link_count;
    size = size;
    blocks = blocks;
    target_path = target_path;
  })

-- fmt::format_int(n).c_str()
module _ (format_int : ℕ → Bytes) where
  -- if (use_…) { s += MSP; s += fmt::format_int(…).c_str(); }
  unfoldable pub print_optional : Bool → ℕ → Bytes → Bytes
  print_optional used n rest = if used then msp ∷ (format_int n ++ rest) else rest

  unfoldable pub serialize : Config → Metadata → Bytes
  serialize cfg md =
      format_int md.mode
      ++ msp
        ∷ (format_int md.size
            ++ print_optional cfg.use_atime md.atime (
                print_optional cfg.use_mtime md.mtime (
                  print_optional cfg.use_ctime md.ctime (
                    print_optional cfg.use_link_cnt md.link_count
                      (print_optional cfg.use_blocks md.blocks (msp ∷ md.target_path))))))

-- init_ACM_time, with the clock's reading as argument.
unfoldable pub init_acm_time : ℕ → Metadata → Metadata
init_acm_time time md = record md { atime = time; mtime = time; ctime = time }

unfoldable pub update_acm_time : ℕ → Bool → Bool → Bool → Metadata → Metadata
update_acm_time time a c m md = record md {
  atime = if a then time else md.atime;
  mtime = if m then time else md.mtime;
  ctime = if c then time else md.ctime;
}

-- The setter and the getter of `target_path` assert what the source asserts.
unfoldable pub set_target_path : Bytes → Metadata → Option Metadata
set_target_path target_path md =
    assert_that
      ((empty target_path || is_lnk md.mode)
        && (empty target_path || starts_with_slash target_path))
      (record md { target_path = target_path })

unfoldable pub get_target_path : Metadata → Option Bytes
get_target_path md = assert_that (not (empty md.target_path)) md.target_path

unfoldable pub is_link : Metadata → Bool
is_link md = is_lnk md.mode
