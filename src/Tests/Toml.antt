-- ===== src/Tests/Toml.antt =====
-- A parser of the TOML documents of a configuration.
use tesaurus.Prelude.{
  ℕ, ◌≡◌, refl, sym, ap, ◌∙◌, Bool, true, false, not, Bytes, Bytes-discrete, List, [], ◌∷◌, ◌++◌,
  Option, some, none, ◌==◌, all, arith, map, if◌then◌else◌,
}
use tesaurus.Coordinator.Config.{Config, is_ascii_digit}
use tesaurus.Coordinator.Config.Toml.{
  Value, quoted, digits, Line, blank, comment, table, entry, Document, print, print_value,
  print_line, is_line, is_plain, is_bare, is_printable, is_document, entries, lookup, decimal,
  optional, Gives, ReadsToml,
}
use tesaurus.Policy.Pin.{codes}

-- The text before the first character `c`, and behind it.
abbrev before : ℕ → Bytes → Bytes
before c [] = []
before c (x ∷ s) = if x == c then [] else x ∷ before c s

abbrev behind : ℕ → Bytes → Bytes
behind c [] = []
behind c (x ∷ s) = if x == c then s else behind c s

abbrev other_than : ℕ → ℕ → Bool
other_than c x = not (x == c)

before_lem : (c : ℕ) (a rest : Bytes) → all (other_than c) a ≡ true → before c (a ++ c ∷ rest) ≡ a
before_lem c [] rest h = ground arith
before_lem c (x ∷ a) rest h = ground (arith, before_lem c a rest)

behind_lem :
    (c : ℕ) (a rest : Bytes) → all (other_than c) a ≡ true → behind c (a ++ c ∷ rest) ≡ rest
behind_lem c [] rest h = ground arith
behind_lem c (x ∷ a) rest h = ground (arith, behind_lem c a rest)

all-map :
    (p q : ℕ → Bool) (s : Bytes)
    → ((x : ℕ) → p x ≡ true → q x ≡ true)
    → all p s ≡ true
    → all q s ≡ true
all-map p q [] h k = refl
all-map p q (x ∷ s) h k = ground (arith, h x, all-map p q s h)

abbrev put : ℕ → List Bytes → List Bytes
put c [] = (c ∷ []) ∷ []
put c (l ∷ ls) = (c ∷ l) ∷ ls

abbrev lines_of : Bytes → List Bytes
lines_of [] = []
lines_of (c ∷ s) = if c == 10 then [] ∷ lines_of s else put c (lines_of s)

lines_of_lem :
    (l rest : Bytes) → all (other_than 10) l ≡ true → lines_of (l ++ 10 ∷ rest) ≡ l ∷ lines_of rest
lines_of_lem [] rest h = refl
lines_of_lem (c ∷ l) rest h =
    let other : (c == 10) ≡ false = ground arith in
    rw other (ap (put c) (lines_of_lem l rest (ground arith)))

abbrev read_value : Bytes → Value
read_value [] = digits []
read_value (c ∷ s) = if c == 34 then quoted (before 34 s) else digits (c ∷ s)

abbrev tail : Bytes → Bytes
tail [] = []
tail (_ ∷ s) = s

abbrev read_line : Bytes → Line
read_line [] = blank
read_line (c ∷ s) =
    if c == 35
    then comment s
    else if c == 91
    then table (before 93 s)
    else entry (before 32 (c ∷ s)) (read_value (tail (tail (behind 32 (c ∷ s)))))

read_value-quoted :
    (s : Bytes) → all is_plain s ≡ true → read_value (codes "\"" ++ (s ++ codes "\"")) ≡ quoted s
read_value-quoted s h =
    ap quoted (before_lem 34 s [] (all-map is_plain (other_than 34) s (λ x k. ground arith) h))

read_value-digits :
    (s : Bytes) → is_line (entry (97 ∷ []) (digits s)) ≡ true → read_value s ≡ digits s
read_value-digits [] h = refl
read_value-digits (c ∷ s) h = ground arith

read_value-print :
    (key : Bytes) (value : Value)
    → is_line (entry key value) ≡ true
    → read_value (print_value value) ≡ value
read_value-print key (quoted s) h = read_value-quoted s (ground arith)
read_value-print key (digits s) h = read_value-digits s (ground arith)

bare_other :
    (c : ℕ) (s : Bytes)
    → ((x : ℕ) → is_bare x ≡ true → other_than c x ≡ true)
    → all is_bare s ≡ true
    → all (other_than c) s ≡ true
bare_other c s differ h = all-map is_bare (other_than c) s differ h

read_line-print : (l : Line) → is_line l ≡ true → read_line (print_line l) ≡ l
read_line-print blank h = refl
read_line-print (comment s) h = refl
read_line-print (table name) h =
    ap table (before_lem 93 name [] (bare_other 93 name (λ x k. ground arith) (ground arith)))
read_line-print (entry [] value) h = ground arith
read_line-print (entry (k ∷ key) value) h =
    let spaceless : all (other_than 32) (k ∷ key) ≡ true =
      bare_other 32 (k ∷ key) (λ x k. ground arith) (ground arith) in
    let rest = 61 ∷ 32 ∷ print_value value in
    let no_comment : (k == 35) ≡ false = ground arith in
    let no_table : (k == 91) ≡ false = ground arith in
    rw no_comment (
      rw no_table (
        rw (before_lem 32 (k ∷ key) rest spaceless) (
          rw (behind_lem 32 (k ∷ key) rest spaceless)
            (ap (entry (k ∷ key)) (read_value-print (k ∷ key) value h)))))

all-append : (p : ℕ → Bool) (a b : Bytes) → all p a ≡ true → all p b ≡ true → all p (a ++ b) ≡ true
all-append p [] b h k = k
all-append p (x ∷ a) b h k = ground (arith, all-append p a b)

value_one_line :
    (key : Bytes) (value : Value)
    → is_line (entry key value) ≡ true
    → all (other_than 10) (print_value value) ≡ true
value_one_line key (quoted s) h =
    all-append (other_than 10) s (codes "\"")
      (all-map is_plain (other_than 10) s (λ x k. ground arith) (ground arith)) refl
value_one_line key (digits s) h =
    all-map is_ascii_digit (other_than 10) s (λ x k. ground arith) (ground arith)

one_line : (l : Line) → is_line l ≡ true → all (other_than 10) (print_line l) ≡ true
one_line blank h = refl
one_line (comment s) h = all-map is_printable (other_than 10) s (λ x k. ground arith) h
one_line (table name) h =
    all-append (other_than 10) name (codes "]")
      (bare_other 10 name (λ x k. ground arith) (ground arith)) refl
one_line (entry key value) h =
    all-append (other_than 10) key (codes " = " ++ print_value value)
      (bare_other 10 key (λ x k. ground arith) (ground arith)) (value_one_line key value h)

parse : Bytes → Document
parse raw = map read_line (lines_of raw)

parse-print : (doc : Document) → all is_line doc ≡ true → parse (print doc) ≡ doc
unfolding parse
parse-print [] h = refl
parse-print (l ∷ doc) h =
    let this : is_line l ≡ true = ground arith in
    ap (map read_line) (lines_of_lem (print_line l) (print doc) (one_line l this))
    ∙ cc (read_line-print l this, parse-print doc (ground arith))

abbrev text : Option Value → Bytes
text (some (quoted s)) = s
text _ = []

abbrev maybe_text : Option Value → Option Bytes
maybe_text (some (quoted s)) = some s
maybe_text _ = none

abbrev number : Option Value → ℕ
number (some (digits s)) = decimal 0 s
number _ = 0

config_of : List (Bytes × Value) → Config
config_of es = record {
  bitcoin = record {
    network = text (lookup (codes "bitcoin.network") es);
    cookie_path = maybe_text (lookup (codes "bitcoin.cookie_path") es);
    rpc_url = text (lookup (codes "bitcoin.rpc_url") es);
    rpc_user = maybe_text (lookup (codes "bitcoin.rpc_user") es);
    rpc_password = maybe_text (lookup (codes "bitcoin.rpc_password") es);
    wallet_name = text (lookup (codes "bitcoin.wallet_name") es);
  };
  vault = record {
    state_path = text (lookup (codes "vault.state_path") es);
    csv_blocks = number (lookup (codes "vault.csv_blocks") es);
    keys_dir = text (lookup (codes "vault.keys_dir") es);
  };
}

maybe_text-optional : (s : Option Bytes) → maybe_text (optional s) ≡ s
maybe_text-optional none = refl
maybe_text-optional (some s) = refl

config_of-Gives : (es : List (Bytes × Value)) (cfg : Config) → Gives es cfg → config_of es ≡ cfg
unfolding config_of
config_of-Gives es cfg g = rw g.network (
    rw g.cookie_path (
      rw g.rpc_url (
        rw g.rpc_user (
          rw g.rpc_password (
            rw g.wallet_name (
              rw g.state_path (
                rw g.csv_blocks (
                  rw g.keys_dir (λ i. record {
                    bitcoin = record (cfg.bitcoin) {
                      cookie_path = maybe_text-optional cfg.bitcoin.cookie_path i;
                      rpc_user = maybe_text-optional cfg.bitcoin.rpc_user i;
                      rpc_password = maybe_text-optional cfg.bitcoin.rpc_password i;
                    };
                    vault = record (cfg.vault) { csv_blocks = sym g.is_number i };
                  })))))))))

all_lines : (doc : Document) → is_document doc ≡ true → all is_line doc ≡ true
unfolding is_document
all_lines doc h = ground arith

pub toml : Bytes → Option Config
toml raw = if is_document (parse raw) then some (config_of (entries [] (parse raw))) else none

pub toml-ReadsToml : ReadsToml toml
unfolding toml
toml-ReadsToml = record {
  reads = λ doc cfg good gives.
      let same : parse (print doc) ≡ doc = parse-print doc (all_lines doc good) in
      rw same (rw good (ap some (config_of-Gives (entries [] doc) cfg gives)));
}
