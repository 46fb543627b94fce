-- ===== src/Tests/Commands.antt =====
-- A host with two files, and a recording between the files.
use vestigium.Common.{ℕ, zero, suc, refl, Option, none, some}
use vestigium.Platform.{Bytes, Answer, done, failed}
use vestigium.Engine.Loader.{Pe}
use vestigium.Cli.Files.{FileSystem, Session, ReadsBack}
use vestigium.Cli.Main.{record_target, main}
use vestigium.Cli.Saved.{RecordEnds, main-RecordEnds}
use vestigium.Tests.Codec.{encode, decode, codec-Decodes}
use vestigium.Tests.Toy.{toy, start}
use vestigium.Tests.Hashing.{hasher}
use vestigium.Tests.Images.{inside}

-- the target, file 0, and the trace, any other
record Disk : Type 0 where
  target : Bytes
  trace : Option Bytes

abbrev stored : Option Bytes → Answer Bytes
stored none = failed 2
stored (some bytes) = done bytes

abbrev disk_read : ℕ → Disk → Answer Bytes
disk_read zero disk = done disk.target
disk_read (suc _) disk = stored disk.trace

abbrev disk_write : ℕ → Bytes → Disk → Answer (Unit {0}) × Disk
disk_write zero bytes disk = (failed 5, disk)
disk_write (suc _) bytes disk = (done tt, record disk { trace = some bytes })

abbrev disks : FileSystem
disks = record { FileName = ℕ; Files = Disk; read = disk_read; write = disk_write }

disks-ReadsBack : ReadsBack disks
disks-ReadsBack zero bytes disk e = cc e
disks-ReadsBack (suc _) bytes disk e = refl

abbrev parse : Bytes → Answer Pe
parse bytes = done inside.pe

abbrev session : Session toy disks
session = record { files = record { target = inside.raw_bytes; trace = none }; world = start }

main-RecordEnds_example :
    RecordEnds parse encode decode 9 hasher 0 1 session
      (main parse encode decode 9 hasher (record_target 0 1) session)
main-RecordEnds_example =
    main-RecordEnds parse encode decode 9 hasher 0 1 session disks-ReadsBack codec-Decodes
