-- ===== src/Coordinator/Config/Toml/Example.antt =====
-- The text of `Config::example_toml` of src/config.rs as a TOML document, and what it gives.
use tesaurus.Prelude.{
  ◌≡◌, refl, ap, ◌∙◌, true, Bytes, Bytes-discrete, [], ◌∷◌, ◌++◌, Option, some, all, arith,
}
use tesaurus.Bitcoin.{Network}
use tesaurus.Policy.Pin.{codes, display_u32}
use tesaurus.Coordinator.Config.{Config}
use tesaurus.Coordinator.Config.Example.{example_text, example_config, rpc_port}
use tesaurus.Coordinator.Config.Toml.{
  Document, blank, comment, table, entry, quoted, digits, print, is_document, is_plain, entries,
  Gives, ReadsToml,
}

example_document : Bytes → Bytes → Document
example_document network port =
    comment (codes " Tesaurus configuration")
    ∷ blank
    ∷ table (codes "bitcoin")
    ∷ entry (codes "network") (quoted network)
    ∷ entry (codes "rpc_url") (quoted (codes "http://127.0.0.1:" ++ port))
    ∷ entry (codes "wallet_name") (quoted (codes "tesaurus"))
    ∷ comment (codes " Prefer Bitcoin Core cookie authentication:")
    ∷ comment (codes " cookie_path = \"/absolute/path/to/bitcoin/.cookie\"")
    ∷ comment (
        codes
          " Alternatively set rpc_user and rpc_password locally. Never commit real credentials.")
    ∷ blank
    ∷ table (codes "vault")
    ∷ entry (codes "state_path") (quoted (codes "./data/vault.json"))
    ∷ entry (codes "keys_dir") (quoted (codes "./keys"))
    ∷ entry (codes "csv_blocks") (digits (codes "10"))
    ∷ []

example_text-print :
    (network port : Bytes) → example_text network port ≡ print (example_document network port)
unfolding example_text example_document
example_text-print network port = refl

example-is_document :
    (network port : Bytes)
    → all is_plain network ≡ true
    → all is_plain port ≡ true
    → is_document (example_document network port) ≡ true
unfolding is_document example_document Bytes-discrete
example-is_document network port plain plain_port = rw (plain, plain_port) refl

example-Gives :
    (network port : Bytes)
    → Gives (entries [] (example_document network port)) (example_config network port)
unfolding example_document example_config Bytes-discrete
example-Gives network port = record {
  network = refl;
  cookie_path = refl;
  rpc_url = refl;
  rpc_user = refl;
  rpc_password = refl;
  wallet_name = refl;
  state_path = refl;
  number = codes "10";
  csv_blocks = refl;
  is_number = refl;
  fits = omega arith;
  keys_dir = refl;
}

plain_port : (n : Network) → all is_plain (display_u32 (rpc_port n)) ≡ true
unfolding display_u32 rpc_port
plain_port Network.regtest = refl
plain_port Network.signet = refl
plain_port Network.testnet = refl
plain_port Network.bitcoin = refl
plain_port Network.other = refl

-- A parser that reads TOML reads the example text of a network whose name needs no escapes.
pub example_text-reads :
    (toml_from_str : Bytes → Option Config) (network : Bytes) (n : Network)
    → ReadsToml toml_from_str
    → all is_plain network ≡ true
    → toml_from_str (example_text network (display_u32 (rpc_port n)))
      ≡ some (example_config network (display_u32 (rpc_port n)))
example_text-reads toml_from_str network n parser plain =
    let port = display_u32 (rpc_port n) in
    ap toml_from_str (example_text-print network port)
    ∙ parser.reads (example_document network port) (example_config network port)
        (example-is_document network port plain (plain_port n)) (example-Gives network port)
