-- ===== src/Coordinator/Config/Loopback.antt =====
-- What the configuration checks of src/config.rs accept.
use tesaurus.Prelude.{
  ℕ, ◌≤◌, ◌≡◌, ◌≢◌, ◌⊎◌, inl, inr, refl, ap, ◌∙◌, true, Bytes, Bytes-discrete, [], ◌∷◌, ◌++◌,
  Option, some, none, arith, ok, all, is_same, is_empty, reject_if, ltb, is_some, Bool-cases,
  Option-cases, ◌==◌, and_then, >>=-eq-ok,
}
use tesaurus.Bitcoin.{Network}
use tesaurus.Policy.Pin.{codes, is_test_network}
use tesaurus.Coordinator.Failure.{Error}
use tesaurus.Coordinator.Tools.{Tools}
use tesaurus.Coordinator.Config.{
  Config, BitcoinConfig, strip_prefix, before_slash, is_ascii_digit, is_port, is_host,
  is_loopback_authority, is_loopback_rpc_url, network, validate_bitcoin, validate_config,
  is_wallet_char,
}

pub strip_prefix_lem : (p s rest : Bytes) → strip_prefix p s ≡ some rest → s ≡ p ++ rest
unfolding strip_prefix
strip_prefix_lem [] s rest h = ground arith
strip_prefix_lem (p ∷ ps) [] rest h = ground arith
strip_prefix_lem (p ∷ ps) (c ∷ s) rest h = ground (arith, strip_prefix_lem ps s rest)

-- Nothing, or something that begins with a slash.
abbrev pub IsPath : Bytes → Type 0
IsPath path = (path ≡ []) ⊎ ((rest : Bytes) × (path ≡ 47 ∷ rest))

before_slash_lem : (s : Bytes) → (path : Bytes) × (s ≡ before_slash s ++ path) × IsPath path
unfolding before_slash
before_slash_lem [] = ([], refl, inl refl)
before_slash_lem (c ∷ s) =
    let (path, e, k) = before_slash_lem s in
    elim (Bool-cases (c == 47)) [
      | inl slash ↦ (c ∷ s, rw slash refl, inr (s, ground arith))
      | inr other ↦ (path, rw other (ap (λ l. c ∷ l) e), k)
    ]

-- The authority is a host, alone or with a port of digits.
abbrev pub IsAuthority : Bytes → Bytes → Type 0
IsAuthority host authority =
    (authority ≡ host)
    ⊎ ((port : Bytes) × (port ≢ [])
        × (all is_ascii_digit port ≡ true)
        × (authority ≡ host ++ 58 ∷ port))

port_lem :
    (found : Option Bytes)
    → is_port found ≡ true
    → (port : Bytes) × (found ≡ some port) × (port ≢ []) × (all is_ascii_digit port ≡ true)
port_lem none h = ground arith
port_lem (some port) h = (port, refl, ground arith, ground arith)

then_lem :
    (o : Option Bytes) (k : Bytes → Option Bytes) (b : Bytes)
    → and_then o k ≡ some b
    → (a : Bytes) × (o ≡ some a) × (k a ≡ some b)
then_lem none k b h = ground arith
then_lem (some a) k b h = (a, refl, h)

host_lem : (authority host : Bytes) → is_host authority host ≡ true → IsAuthority host authority
unfolding is_host
host_lem authority host h = elim (Bool-cases (is_same authority host)) [
  | inl same ↦ inl (ground arith)
  | inr other ↦
      let (port, found, some_digit, digits) =
        port_lem (and_then (strip_prefix host authority) (strip_prefix (58 ∷ [])))
          (rw other at h) in
      let (rest, after_host, after_colon) =
        then_lem (strip_prefix host authority) (strip_prefix (58 ∷ [])) port found in
      inr (
        port,
        some_digit,
        digits,
        strip_prefix_lem host authority rest after_host
            ∙ ap (λ l. host ++ l) (strip_prefix_lem (58 ∷ []) rest port after_colon),
      )
]

-- An address of plain HTTP on a loopback host.
abbrev pub IsLoopback : Bytes → Type 0
IsLoopback url =
    (host : Bytes) × ((host ≡ codes "127.0.0.1") ⊎ (host ≡ codes "[::1]"))
    × (authority : Bytes) × IsAuthority host authority
    × (path : Bytes) × IsPath path
    × (url ≡ codes "http://" ++ (authority ++ path))

authority_lem :
    (authority : Bytes)
    → is_loopback_authority authority ≡ true
    → (host : Bytes) × ((host ≡ codes "127.0.0.1") ⊎ (host ≡ codes "[::1]"))
      × IsAuthority host authority
unfolding is_loopback_authority
authority_lem authority h = elim (Bool-cases (is_host authority (codes "127.0.0.1"))) [
  | inl four ↦ (codes "127.0.0.1", inl refl, host_lem authority (codes "127.0.0.1") four)
  | inr other ↦ (codes "[::1]", inr refl, host_lem authority (codes "[::1]") (ground arith))
]

url_lem :
    (url : Bytes)
    → is_loopback_rpc_url url ≡ true
    → (rest : Bytes) × (strip_prefix (codes "http://") url ≡ some rest)
      × (is_loopback_authority (before_slash rest) ≡ true)
unfolding is_loopback_rpc_url
url_lem url h = elim (Option-cases (strip_prefix (codes "http://") url)) [
  | inl nothing ↦ absurd (ground arith)
  | inr (rest, found) ↦ (rest, found, ground arith)
]

-- An RPC address that passes is plain HTTP on 127.0.0.1 or [::1], with a port of digits or none, and
-- a path or none.
pub is_loopback_rpc_url_lem : (url : Bytes) → is_loopback_rpc_url url ≡ true → IsLoopback url
is_loopback_rpc_url_lem url h =
    let (rest, found, passes) = url_lem url h in
    let (host, which, authority) = authority_lem (before_slash rest) passes in
    let (path, split, k) = before_slash_lem rest in
    (
      host,
      which,
      before_slash rest,
      authority,
      path,
      k,
      strip_prefix_lem (codes "http://") url rest found ∙ ap (λ l. codes "http://" ++ l) split,
    )

-- What an accepted configuration holds.
pub record IsSafe (tools : Tools) (cfg : Config) : Type 0 where
  pub net : Network
  pub network_reads : network tools cfg.bitcoin ≡ ok net
  pub on_test_network : is_test_network net ≡ true
  pub loopback : IsLoopback cfg.bitcoin.rpc_url
  pub wallet_named : cfg.bitcoin.wallet_name ≢ []
  pub wallet_chars : all is_wallet_char cfg.bitcoin.wallet_name ≡ true
  pub credentials : is_some cfg.bitcoin.rpc_user ≡ is_some cfg.bitcoin.rpc_password
  pub csv_positive : 1 ≤ cfg.vault.csv_blocks
  pub csv_fits : cfg.vault.csv_blocks ≤ 65535
  pub state_path : cfg.vault.state_path ≢ []
  pub keys_dir : cfg.vault.keys_dir ≢ []

module _ (tools : Tools) where
  bitcoin_lem :
      (cfg : BitcoinConfig)
      → validate_bitcoin tools cfg ≡ ok tt
      → ((net : Network) × (network tools cfg ≡ ok net) × (is_test_network net ≡ true))
        × (is_loopback_rpc_url cfg.rpc_url ≡ true)
        × (cfg.wallet_name ≢ [])
        × (all is_wallet_char cfg.wallet_name ≡ true)
        × (is_some cfg.rpc_user ≡ is_some cfg.rpc_password)
  unfolding validate_bitcoin
  bitcoin_lem cfg h = ground arith

  positive_lem : (n : ℕ) → reject_if (n == 0) Error.config ≡ ok tt → 1 ≤ n
  positive_lem n h = ground arith

  small_lem : (n : ℕ) → reject_if (ltb 65535 n) Error.config ≡ ok tt → n ≤ 65535
  small_lem n h = ground arith

  some_lem : (b : Bytes) → reject_if (is_empty b) Error.config ≡ ok tt → b ≢ []
  some_lem b h = ground arith

  vault_lem :
      (cfg : Config)
      → validate_config tools cfg ≡ ok tt
      → (validate_bitcoin tools cfg.bitcoin ≡ ok tt)
        × (1 ≤ cfg.vault.csv_blocks)
        × (cfg.vault.csv_blocks ≤ 65535)
        × (cfg.vault.state_path ≢ [])
        × (cfg.vault.keys_dir ≢ [])
  unfolding validate_config
  vault_lem cfg h =
      let (_, bitcoin, h₁) = >>=-eq-ok (validate_bitcoin tools cfg.bitcoin) _ h in
      let (_, some_csv, h₂) = >>=-eq-ok (reject_if (cfg.vault.csv_blocks == 0) Error.config) _ h₁ in
      let (_, small, h₃) =
        >>=-eq-ok (reject_if (ltb 65535 cfg.vault.csv_blocks) Error.config) _ h₂ in
      let (_, state, keys) =
        >>=-eq-ok (reject_if (is_empty cfg.vault.state_path) Error.config) _ h₃ in
      (
        bitcoin,
        positive_lem cfg.vault.csv_blocks some_csv,
        small_lem cfg.vault.csv_blocks small,
        some_lem cfg.vault.state_path state,
        some_lem cfg.vault.keys_dir keys,
      )

  -- A configuration that passes is for a test network, reaches Bitcoin Core only over plain HTTP on a
  -- loopback host, names a wallet in safe characters, has both RPC credentials or none, a delay of 1
  -- to 65535 blocks, and both paths.
  pub validate_config-IsSafe : (cfg : Config) → validate_config tools cfg ≡ ok tt → IsSafe tools cfg
  validate_config-IsSafe cfg h =
      let (bitcoin, positive, fits, state, keys) = vault_lem cfg h in
      let ((net, reads, test), url, named, chars, both) = bitcoin_lem cfg.bitcoin bitcoin in
      record {
        net = net;
        network_reads = reads;
        on_test_network = test;
        loopback = is_loopback_rpc_url_lem cfg.bitcoin.rpc_url url;
        wallet_named = named;
        wallet_chars = chars;
        credentials = both;
        csv_positive = positive;
        csv_fits = fits;
        state_path = state;
        keys_dir = keys;
      }
