-- ===== src/Coordinator/Config/Toml.antt =====
-- The TOML documents that stand for a configuration of src/config.rs, as text and as fields, and what
-- the parser (the crate toml, a parameter) is trusted to do with them.
pub mod Example
use tesaurus.Prelude.{
  ℕ, ◌+◌, ◌-◌, ◌*◌, ◌^◌, ◌<◌, ◌≡◌, Bool, true, false, not, ◌&&◌, ◌||◌, leb, ltb, ◌==◌, Bytes,
  Bytes-discrete, List, [], ◌∷◌, ◌++◌, Option, some, none, all, contains, is_empty, is_same,
  if◌then◌else◌,
}
use tesaurus.Policy.Pin.{codes}
use tesaurus.Coordinator.Config.{Config, is_ascii_digit}

-- A string without escapes, or the digits of a number.
pub data Value : Type 0 where
  quoted : Bytes → Value
  digits : Bytes → Value

pub data Line : Type 0 where
  blank : Line
  comment : Bytes → Line
  table : Bytes → Line
  entry : Bytes → Value → Line

abbrev pub Document : Type 0
Document = List Line

abbrev pub print_value : Value → Bytes
print_value (quoted s) = codes "\"" ++ (s ++ codes "\"")
print_value (digits s) = s

abbrev pub print_line : Line → Bytes
print_line blank = []
print_line (comment s) = codes "#" ++ s
print_line (table name) = codes "[" ++ (name ++ codes "]")
print_line (entry key value) = key ++ (codes " = " ++ print_value value)

-- Each line with its newline.
abbrev pub print : Document → Bytes
print [] = []
print (l ∷ doc) = print_line l ++ 10 ∷ print doc

abbrev pub is_printable : ℕ → Bool
is_printable c = leb 32 c && ltb c 127

-- A character of a string that needs no escape.
abbrev pub is_plain : ℕ → Bool
is_plain c = is_printable c && (not (c == 34) && not (c == 92))

-- A lower case letter or an underscore: a part of the characters of a bare key.
abbrev pub is_bare : ℕ → Bool
is_bare c = (leb 97 c && leb c 122) || c == 95

-- No zero before another digit.
abbrev pub has_no_leading_zero : Bytes → Bool
has_no_leading_zero [] = false
has_no_leading_zero (c ∷ []) = true
has_no_leading_zero (c ∷ _ ∷ _) = not (c == 48)

abbrev pub is_value : Value → Bool
is_value (quoted s) = all is_plain s
is_value (digits s) = all is_ascii_digit s && has_no_leading_zero s

abbrev pub is_line : Line → Bool
is_line blank = true
is_line (comment s) = all is_printable s
is_line (table name) = all is_bare name && not (is_empty name)
is_line (entry key value) = all is_bare key && (not (is_empty key) && is_value value)

abbrev pub tables : Document → List Bytes
tables [] = []
tables (table name ∷ doc) = name ∷ tables doc
tables (_ ∷ doc) = tables doc

-- The entries behind a table's header, with its name and a dot before their keys.
abbrev pub entries : Bytes → Document → List (Bytes × Value)
entries name [] = []
entries name (table next ∷ doc) = entries next doc
entries name (entry key value ∷ doc) = (name ++ (codes "." ++ key), value) ∷ entries name doc
entries name (blank ∷ doc) = entries name doc
entries name (comment _ ∷ doc) = entries name doc

abbrev pub lookup : Bytes → List (Bytes × Value) → Option Value
lookup key [] = none
lookup key (e ∷ es) = if is_same e.0 key then some e.1 else lookup key es

abbrev pub are_distinct : List Bytes → Bool
are_distinct [] = true
are_distinct (name ∷ names) = not (contains names name) && are_distinct names

abbrev pub keys : List (Bytes × Value) → List Bytes
keys [] = []
keys (e ∷ es) = e.0 ∷ keys es

abbrev pub known_tables : List Bytes
known_tables = codes "bitcoin" ∷ codes "vault" ∷ []

abbrev pub known_keys : List Bytes
known_keys =
    codes "bitcoin.network"
    ∷ codes "bitcoin.cookie_path"
    ∷ codes "bitcoin.rpc_url"
    ∷ codes "bitcoin.rpc_user"
    ∷ codes "bitcoin.rpc_password"
    ∷ codes "bitcoin.wallet_name"
    ∷ codes "vault.state_path"
    ∷ codes "vault.csv_blocks"
    ∷ codes "vault.keys_dir"
    ∷ []

abbrev pub are_known : List Bytes → List Bytes → Bool
are_known known names = all (contains known) names && are_distinct names

-- A document of well-formed lines, in which each table and each key is a field of the configuration and
-- stands once.
unfoldable pub is_document : Document → Bool
is_document doc =
    all is_line doc
    && (are_known known_tables (tables doc) && are_known known_keys (keys (entries [] doc)))

abbrev pub optional : Option Bytes → Option Value
optional none = none
optional (some s) = some (quoted s)

-- The number with these digits, behind others that are worth `n`.
abbrev pub decimal : ℕ → Bytes → ℕ
decimal n [] = n
decimal n (c ∷ s) = decimal (n * 10 + (c - 48)) s

-- The entries give every field of the configuration, and no optional field that it lacks.
pub record Gives (es : List (Bytes × Value)) (cfg : Config) : Type 0 where
  pub network : lookup (codes "bitcoin.network") es ≡ some (quoted cfg.bitcoin.network)
  pub cookie_path : lookup (codes "bitcoin.cookie_path") es ≡ optional cfg.bitcoin.cookie_path
  pub rpc_url : lookup (codes "bitcoin.rpc_url") es ≡ some (quoted cfg.bitcoin.rpc_url)
  pub rpc_user : lookup (codes "bitcoin.rpc_user") es ≡ optional cfg.bitcoin.rpc_user
  pub rpc_password : lookup (codes "bitcoin.rpc_password") es ≡ optional cfg.bitcoin.rpc_password
  pub wallet_name : lookup (codes "bitcoin.wallet_name") es ≡ some (quoted cfg.bitcoin.wallet_name)
  pub state_path : lookup (codes "vault.state_path") es ≡ some (quoted cfg.vault.state_path)
  pub number : Bytes
  pub csv_blocks : lookup (codes "vault.csv_blocks") es ≡ some (digits number)
  pub is_number : cfg.vault.csv_blocks ≡ decimal 0 number
  pub fits : cfg.vault.csv_blocks < 2 ^ 32
  pub keys_dir : lookup (codes "vault.keys_dir") es ≡ some (quoted cfg.vault.keys_dir)

-- A parser of TOML that reads the text of every document that gives a configuration.
pub record ReadsToml (toml_from_str : Bytes → Option Config) : Type 0 where
  pub reads :
      (doc : Document) (cfg : Config)
      → is_document doc ≡ true
      → Gives (entries [] doc) cfg
      → toml_from_str (print doc) ≡ some cfg
