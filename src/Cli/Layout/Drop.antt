-- ===== src/Cli/Layout/Drop.antt =====
-- The drop of a snapshot frees its buffers, each once.
use vestigium.Common.{ℕ, zero, suc, ◌≡◌, refl, sym, ◌∙◌, none, [], ◌∷◌}
use vestigium.Common.Exec.{ok}
use vestigium.Common.HashMap.{HashMap}
use vestigium.Platform.{Platform, World, Bytes, Heap, block, set_block}
use vestigium.Platform.Access.{block-set_block_ne}
use vestigium.Engine.Memory.{AlignedMemory}
use vestigium.Engine.Memory.Alloc.{drop_memory-ok}
use vestigium.Engine.Snapshot.Holds.{Holds, Apart, Holds-set_block}
use vestigium.Cli.Layout.{drop_regions}

-- None of the buffers is live.
abbrev pub AreFreed : Heap → HashMap AlignedMemory → Type 0
AreFreed heap [] = Unit
AreFreed heap ((gpa, mem) ∷ regions) = (block mem.ptr heap ≡ none) × AreFreed heap regions

block-set_block-none : (ptr : ℕ) (heap : Heap) → block ptr (set_block ptr none heap) ≡ none
block-set_block-none ptr [] = refl
block-set_block-none zero (x ∷ heap) = refl
block-set_block-none (suc ptr) (x ∷ heap) = block-set_block-none ptr heap

-- Where the buffers of a snapshot are live and distinct, dropping them all succeeds: none is freed
-- twice, each is freed, and every block that is no buffer of the snapshot stays as it is.
pub drop_regions-AreFreed :
    {p : Platform} (regions : HashMap AlignedMemory) (contents : HashMap Bytes) (w : World p)
    → Holds w.heap regions contents
    → (w' : World p) × (drop_regions regions w ≡ (ok tt, w'))
      × AreFreed w'.heap regions
      × (w'.machine ≡ w.machine)
      × ((q : ℕ) → Apart q regions → block q w'.heap ≡ block q w.heap)
unfolding drop_regions
drop_regions-AreFreed [] [] w h = (w, refl, tt, refl, λ q a. refl)
drop_regions-AreFreed [] (c ∷ contents) w h = elim h [ ]
drop_regions-AreFreed (r ∷ regions) [] w h = elim h [ ]
drop_regions-AreFreed {p} ((gpa, mem) ∷ regions) ((at, b) ∷ contents) w (e, live, sized, apart, h) =
    let w1 : World p = record w { heap = set_block mem.ptr none w.heap } in
    let (w', run, gone, m, kept) =
      drop_regions-AreFreed regions contents w1
        (Holds-set_block mem.ptr none w.heap regions contents apart h) in
    (
      w',
      rw (drop_memory-ok mem b w live) run,
      (kept mem.ptr apart ∙ block-set_block-none mem.ptr w.heap, gone),
      m,
      λ q (ne, a). kept q a ∙ block-set_block_ne mem.ptr q none w.heap (λ e. ne (sym e)),
    )
