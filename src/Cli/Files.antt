-- ===== src/Cli/Files.antt =====
-- crates/cli/src/main.rs: what the commands share with the host besides the hypervisor, its files.
pub mod Cases
use vestigium.Common.{◌≡◌}
use vestigium.Common.Exec.{Exec}
use vestigium.Platform.{Platform, World, Bytes, Answer, done, answer}

-- `fs::read` and `fs::write`.
pub record FileSystem : Type 1 where
  pub FileName : Type 0
  pub Files : Type 0
  pub read : FileName → Files → Answer Bytes
  pub write : FileName → Bytes → Files → Answer (Unit {0}) × Files

-- A file that has been written reads as it was written.
abbrev pub ReadsBack : FileSystem → Type 0
ReadsBack fs =
    (name : fs.FileName) (bytes : Bytes) (files : fs.Files)
    → (fs.write name bytes files).0 ≡ done tt
    → fs.read name (fs.write name bytes files).1 ≡ done bytes

-- A call of the PE parser or of the trace's format.
abbrev pub outside : {S A : Type 0} → Answer A → Exec S A
outside a s = (answer a, s)

pub record Session (p : Platform) (fs : FileSystem) : Type 0 where
  pub files : fs.Files
  pub world : World p

module _ {p : Platform} {fs : FileSystem} where
  abbrev pub on_host : {A : Type 0} → Exec (World p) A → Exec (Session p fs) A
  on_host m s = let (r, w) = m s.world in (r, record s { world = w })

  abbrev pub read_file : fs.FileName → Exec (Session p fs) Bytes
  read_file name s = (answer (fs.read name s.files), s)

  abbrev pub write_file : fs.FileName → Bytes → Exec (Session p fs) (Unit {0})
  write_file name bytes s =
      let (a, files) = fs.write name bytes s.files in (answer a, record s { files = files })
