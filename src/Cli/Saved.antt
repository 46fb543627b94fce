-- ===== src/Cli/Saved.antt =====
-- How `main` ends for a recording, and what a replay then finds in the trace file.
use vestigium.Common.{ℕ, ◌≡◌, refl, sym, [], ◌∷◌, inl, inr}
use mathlib.Core.Path.{subst}
use vestigium.Common.Exec.{Outcome, ok, panic, Exec, expect, ◌>>=◌}
use vestigium.Platform.{
  Platform, World, Bytes, Answer, done, failed, say, println, recording, replaying, saved,
}
use vestigium.Engine.Loader.{Pe}
use vestigium.Engine.Snapshot.{Snapshot}
use vestigium.Engine.Snapshot.Hash.{Hasher}
use vestigium.Cli.Files.{FileSystem, Session, ReadsBack, on_host, write_file}
use vestigium.Cli.Files.Cases.{Fails, read-cases, write-cases, outside-cases, host-cases}
use vestigium.Cli.Record.{
  Archive, Started, start_guest, finish_guest, drop_guest, save_guest, record_command,
}
use vestigium.Cli.Replay.{replay_archive, replay_command}
use vestigium.Cli.Main.{record_target, replay_trace, main}

-- What is encoded decodes to what it was.
abbrev pub Decodes : (Archive → Answer Bytes) → (Bytes → Answer Archive) → Type 0
Decodes encode decode =
    (archive : Archive) (bytes : Bytes) → encode archive ≡ done bytes → decode bytes ≡ done archive

-- An archive that the recorder has made of a guest started from the bytes of a target.
pub record Recorded {p : Platform} (parser : Bytes → Answer Pe) (encode : Archive → Answer Bytes)
    (fuel : ℕ) (h : Hasher) (binary_data : Bytes) (w : World p) : Type 0 where
  pub guest : Started
  pub begun : World p
  pub started : start_guest parser binary_data w ≡ (ok guest, begun)
  pub last : Snapshot
  pub archive : Archive
  pub ended : World p
  pub finished :
      finish_guest fuel h guest.partition guest.layout guest.vcpu guest.snapshot begun
      ≡ (ok (last, archive), ended)
  pub encoded : Bytes
  pub is_encoded : encode archive ≡ done encoded

module _ {p : Platform} {fs : FileSystem} (parser : Bytes → Answer Pe)
    (encode : Archive → Answer Bytes) (decode : Bytes → Answer Archive) where
  -- The ends of a recording: without an archive in a file, at a write that fails, and with the
  -- archive in the file for every replay.
  pub data RecordEnds (fuel : ℕ) (h : Hasher) (target output : fs.FileName) (s : Session p fs)
      (r : Outcome (Unit {0}) × Session p fs) : Type 1 where
    unsaved : Fails r.0 → r.1.files ≡ s.files → RecordEnds fuel h target output s r
    refused :
        (binary_data : Bytes)
        → fs.read target s.files ≡ done binary_data
        → (made : Recorded parser encode fuel h binary_data (say (recording ∷ []) s.world))
        → (code : ℕ) → (fs.write output made.encoded s.files).0 ≡ failed code
        → r.0 ≡ panic
        → r.1.files ≡ (fs.write output made.encoded s.files).1
        → RecordEnds fuel h target output s r
    archived :
        (binary_data : Bytes)
        → fs.read target s.files ≡ done binary_data
        → (made : Recorded parser encode fuel h binary_data (say (recording ∷ []) s.world))
        → (fs.write output made.encoded s.files).0 ≡ done tt
        → r.1.files ≡ (fs.write output made.encoded s.files).1
        → ((k : ℕ) (h' : Hasher) (w : World p)
            → main {fs = fs} parser encode decode k h'
                (replay_trace output)
                (record { files = r.1.files; world = w })
              ≡ on_host
                  (replay_archive k h' made.archive)
                  (record { files = r.1.files; world = say (replaying ∷ []) w }))
        → RecordEnds fuel h target output s r

  -- A replay of a file that holds an archive replays this archive.
  replay_command-found :
      (k : ℕ) (h : Hasher) (output : fs.FileName) (files : fs.Files) (archive : Archive)
      (encoded : Bytes) (w : World p)
      → Decodes encode decode
      → encode archive ≡ done encoded
      → fs.read output files ≡ done encoded
      → main {fs = fs} parser encode decode k h
          (replay_trace output)
          (record { files = files; world = w })
        ≡ on_host
            (replay_archive k h archive)
            (record { files = files; world = say (replaying ∷ []) w })
  unfolding main replay_command
  replay_command-found k h output files archive encoded w decodes is_encoded reads =
      rw (reads, decodes archive encoded is_encoded) refl

  module _ (fuel : ℕ) (h : Hasher) (target output : fs.FileName) (s : Session p fs)
      (reads : ReadsBack fs) (decodes : Decodes encode decode) where
    abbrev Ends : Outcome (Unit {0}) × Session p fs → Type 1
    Ends = RecordEnds fuel h target output s

    -- the host after the first line, and later worlds with the same files
    abbrev at : World p → Session p fs
    at w = record { files = s.files; world = w }

    abbrev begun_at : World p
    begun_at = say (recording ∷ []) s.world

    abbrev run_started : Started → Exec (Session p fs) (Unit {0})
    run_started guest =
        on_host (finish_guest fuel h guest.partition guest.layout guest.vcpu guest.snapshot)
        >>= save_guest encode output guest

    abbrev run_read : Bytes → Exec (Session p fs) (Unit {0})
    run_read binary_data = on_host (start_guest parser binary_data) >>= run_started

    abbrev run_written : Started → Snapshot → Exec (Session p fs) (Unit {0})
    run_written guest last = on_host (println saved) >>= λ _. on_host (drop_guest guest last)

    saved-Ends :
        (binary_data : Bytes) (guest : Started) (last : Snapshot) (archive : Archive)
        (w w' : World p)
        → fs.read target s.files ≡ done binary_data
        → start_guest parser binary_data begun_at ≡ (ok guest, w)
        → finish_guest fuel h guest.partition guest.layout guest.vcpu guest.snapshot w
          ≡ (ok (last, archive), w')
        → Ends (save_guest encode output guest (last, archive) (at w'))
    unfolding save_guest
    saved-Ends binary_data guest last archive w w' found started finished =
        elim (outside-cases (encode archive)
          (λ encoded. expect (write_file output encoded) >>= λ _. run_written guest last) (at w')) [
            | inr e ↦ subst Ends (sym e) (unsaved (λ a q. cc q) refl)
            | inl (encoded, is_encoded, e) ↦
                let made : Recorded parser encode fuel h binary_data begun_at = record {
                  guest = guest;
                  begun = w;
                  started = started;
                  last = last;
                  archive = archive;
                  ended = w';
                  finished = finished;
                  encoded = encoded;
                  is_encoded = is_encoded;
                } in
                subst Ends (sym e)
                  (elim (write-cases output encoded (λ _. run_written guest last) (at w')) [
                    | inr (code, failing, e) ↦
                        subst Ends (sym e) (refused binary_data found made code failing refl refl)
                    | inl (writes, e) ↦ subst Ends (sym e) (
                        archived binary_data found made writes refl (λ k h' v.
                          replay_command-found k h' output (fs.write output encoded s.files).1
                            archive encoded v decodes is_encoded
                            (reads output encoded s.files writes)))
                  ])
          ]

    started-Ends :
        (binary_data : Bytes) (guest : Started) (w : World p)
        → fs.read target s.files ≡ done binary_data
        → start_guest parser binary_data begun_at ≡ (ok guest, w)
        → Ends (run_started guest (at w))
    started-Ends binary_data guest w found started =
        elim (host-cases
          (finish_guest fuel h guest.partition guest.layout guest.vcpu guest.snapshot)
          (save_guest encode output guest) (at w)) [
            | inr (fails, kept) ↦ unsaved fails kept
            | inl ((last, archive), w', finished, e) ↦
                subst Ends (sym e)
                  (saved-Ends binary_data guest last archive w w' found started finished)
          ]

    read-Ends :
        (binary_data : Bytes)
        → fs.read target s.files ≡ done binary_data
        → Ends (run_read binary_data (at begun_at))
    read-Ends binary_data found =
        elim (host-cases (start_guest parser binary_data) run_started (at begun_at)) [
          | inr (fails, kept) ↦ unsaved fails kept
          | inl (guest, w, started, e) ↦
              subst Ends (sym e) (started-Ends binary_data guest w found started)
        ]

    -- On a host where a file that has been written reads as it was written, and with a format that
    -- decodes what it has encoded, `main` for a recording ends in one of three ways. It fails, and the
    -- files are as they were. Or the recorder has made an archive, and the write of its encoding
    -- fails: `main` panics, and the files are as the write has left them. Or the encoding is written,
    -- the files are as the write has left them, and `main` for a replay of the output, in any world
    -- with these files, replays exactly this archive and leaves the files as they are.
    pub main-RecordEnds :
        RecordEnds fuel h target output s
          (main parser encode decode fuel h (record_target target output) s)
    unfolding main record_command
    main-RecordEnds = elim (read-cases target run_read (at begun_at)) [
      | inr e ↦ subst Ends (sym e) (unsaved (λ a q. cc q) refl)
      | inl (binary_data, found, e) ↦ subst Ends (sym e) (read-Ends binary_data found)
    ]
