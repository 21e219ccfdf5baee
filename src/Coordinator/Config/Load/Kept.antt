-- ===== src/Coordinator/Config/Load/Kept.antt =====
-- Loading the configuration again, after the disk has changed elsewhere (src/config.rs).
use tesaurus.Prelude.{◌≡◌, refl, sym, ap, ◌∙◌, ℕ, Bool, Bytes, Option, none, some, ok, ok_or, arith}
use tesaurus.Coordinator.Action.{lift, >>=-step, >>=-ok, lift-ok}
use tesaurus.Coordinator.Failure.{Error, CoreResult}
use tesaurus.Coordinator.Files.{
  Disk, Node, file, link, directory, metadata, read_node, regular_check, read_to_string,
}
use tesaurus.Coordinator.Files.Extends.{metadata-file}
use tesaurus.Coordinator.Tools.{Tools}
use tesaurus.Coordinator.Config.{Config, validate_config}
use tesaurus.Coordinator.Config.Load.{load}

pub regular_file :
    (e : Error) (node : Option Node)
    → regular_check e node ≡ ok tt
    → (mode : ℕ) × (contents : Bytes) × (node ≡ some (file mode contents))
unfolding regular_check
regular_file e none h = ground arith
regular_file e (some (link target)) h = ground arith
regular_file e (some (directory mode)) h = ground arith
regular_file e (some (file mode contents)) h = (mode, contents, refl)

module _ (tools : Tools) (toml_from_str : Bytes → Option Config) where
  -- A configuration that was loaded is loaded again from any disk that has the file.
  pub load-kept :
      (reads : Bool) (path : Bytes) (cfg : Config) (disk disk' : Disk)
      → (load tools toml_from_str reads path disk).0 ≡ ok cfg
      → ((node : Node) → disk path ≡ some node → disk' path ≡ some node)
      → load tools toml_from_str reads path disk' ≡ (ok cfg, disk')
  unfolding load read_to_string
  load-kept reads path cfg disk disk' h kept =
      let whole =
        ap (λ (r : CoreResult Config). (r, (load tools toml_from_str reads path disk).1)) h in
      let (_, d, passed, r1) =
        >>=-ok (lift (regular_check Error.config (disk path))) _ disk whole in
      let regular = (lift-ok _ tt disk d passed) in
      let (raw, e, read, r2) = >>=-ok (read_to_string reads path) _ d r1 in
      let (found, f, parses, r3) = >>=-ok (lift (ok_or (toml_from_str raw) Error.config)) _ e r2 in
      let (_, g, valid, done) = >>=-ok (lift (validate_config tools found)) _ f r3 in
      let (mode, contents, there) = regular_file Error.config (disk path) regular.0 in
      let there' = kept (file mode contents) there in
      let same_node =
        metadata-file disk' path mode contents there'
        ∙ sym (metadata-file disk path mode contents there) in
      let read_raw : read_node reads (metadata disk path) ≡ ok raw =
        ap (λ (v : Disk). read_node reads (metadata v path)) (sym regular.1)
        ∙ ap (λ (r : CoreResult Bytes × Disk). r.0) read in
      >>=-step (lift (regular_check Error.config (disk' path))) _ disk' tt disk'
        (ap (λ r. (r, disk')) (ap (regular_check Error.config) (there' ∙ sym there) ∙ regular.0))
      ∙ (>>=-step (read_to_string reads path) _ disk' raw disk'
            (ap (λ r. (r, disk')) (ap (read_node reads) same_node ∙ read_raw))
          ∙ (>>=-step (lift (ok_or (toml_from_str raw) Error.config)) _ disk' found disk'
                (ap (λ r. (r, disk')) (lift-ok _ found e f parses).0)
              ∙ (>>=-step (lift (validate_config tools found)) _ disk' tt disk'
                    (ap (λ r. (r, disk')) (lift-ok _ tt f g valid).0)
                  ∙ ap (λ (r : CoreResult Config). (r, disk'))
                      (ap (λ (r : CoreResult Config × Disk). r.0) done))))
