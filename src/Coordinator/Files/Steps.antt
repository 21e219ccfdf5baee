-- ===== src/Coordinator/Files/Steps.antt =====
-- Operations that keep what stands on the disk, and sequences of them.
use tesaurus.Prelude.{Bool, true, false, Bytes, Option, none, some, ◌≡◌, refl, sym, ap, ◌∙◌}
use tesaurus.Coordinator.Action.{>>=-state, Reads, refuse_if-Reads, ◌>>=◌, lift, refuse_if}
use tesaurus.Coordinator.Failure.{Error, CoreResult}
use tesaurus.Coordinator.Files.{Node, Disk, Fs, check_io, FileIo, make_parent}
use tesaurus.Coordinator.Files.Extends.{Extends, create_dir_all-Extends}

-- An operation that changes no node of the disk, however it ends.
abbrev pub Keeps : {A : Type 0} → Fs A → Type 0
Keeps m = (disk : Disk) → Extends disk (m disk).1

pub Reads-Keeps : {A : Type 0} (m : Fs A) → Reads m → Keeps m
Reads-Keeps m reads disk p node h = ap (λ (d : Disk). d p) (reads disk) ∙ h

module _ {A B : Type 0} (m : Fs A) (k : A → Fs B) where
  pub >>=-Keeps : Keeps m → ((a : A) → Keeps (k a)) → Keeps (m >>= k)
  >>=-Keeps first next disk =
      >>=-state m k disk (Extends disk) (first disk)
        (λ a d _ kept p node h. next a d p node (kept p node h))

-- An operation that keeps what stands at one path.
abbrev pub KeepsAt : {A : Type 0} → Bytes → Fs A → Type 0
KeepsAt p m = (disk : Disk) (node : Node) → disk p ≡ some node → (m disk).1 p ≡ some node

pub Keeps-KeepsAt : {A : Type 0} (m : Fs A) (p : Bytes) → Keeps m → KeepsAt p m
Keeps-KeepsAt m p keeps disk node h = keeps disk p node h

pub >>=-KeepsAt :
    {A B : Type 0} (m : Fs A) (k : A → Fs B) (p : Bytes)
    → KeepsAt p m
    → ((a : A) → KeepsAt p (k a))
    → KeepsAt p (m >>= k)
>>=-KeepsAt m k p first next disk node h =
    >>=-state m k disk (λ d. d p ≡ some node) (first disk node h) (λ a d _ kept. next a d node kept)

pub lift-Keeps : {A : Type 0} (r : CoreResult A) → Keeps (lift r)
lift-Keeps r disk p node h = h

pub check_io-Reads : (succeeds : Bool) → Reads (check_io succeeds)
check_io-Reads true disk = refl
check_io-Reads false disk = refl

pub refuse_if-Keeps : (refused : Bool) (e : Error) → Keeps (refuse_if refused e)
refuse_if-Keeps refused e = Reads-Keeps (refuse_if refused e) (refuse_if-Reads refused e)

-- What stands on the disk before a run still stands after it.
pub Keeps-run :
    {A : Type 0} (m : Fs A) (disk last : Disk) (r : CoreResult A) (p : Bytes) (node : Node)
    → Keeps m
    → m disk ≡ (r, last)
    → disk p ≡ some node
    → last p ≡ some node
Keeps-run {A = A} m disk last r p node keeps h there =
    ap (λ (s : CoreResult A × Disk). s.1 p) (sym h) ∙ keeps disk p node there

pub make_parent-Keeps : (io : FileIo) (dir : Option Bytes) → Keeps (make_parent io dir)
unfolding make_parent
make_parent-Keeps io none = λ disk p node h. h
make_parent-Keeps io (some dir) = create_dir_all-Extends io.create_dir io.dir_mode dir
