-- ===== src/Tests/Layout.antt =====
-- The memory of a guest, laid out on a small host.
use vestigium.Common.{ℕ, ◌≡◌, refl, none, some, [], ◌∷◌, arith}
use vestigium.Common.Exec.{ok}
use vestigium.Platform.{World, Bytes, zeroed}
use vestigium.Vmm.Ept
use vestigium.Vmm.Paging.Build.{IsIdentityMap}
use vestigium.Cli.Layout.{Layout, stack_size, pt_gpa, map_guest}
use vestigium.Cli.Layout.Capture.{HasBytes}
use vestigium.Cli.Layout.Parts.{HasSpace}
use vestigium.Cli.Layout.Placed.{guest_view}
use vestigium.Cli.Layout.Total.{map_guest-IsLaid}
use vestigium.Tests.Restored.{mapper, mapper-Translates}
use vestigium.Tests.EndToEnd.{image}

abbrev loaded : World mapper
loaded = record { machine = λ a. none; heap = some image ∷ []; printed = [] }

mapper-HasSpace : HasSpace mapper
mapper-HasSpace = record {
  stack_room = λ heap. record { positive = omega arith; small = omega arith; room = refl };
  null_room = λ heap. record { positive = omega arith; small = omega arith; room = refl };
  tables_room = λ heap. record { positive = omega arith; small = omega arith; room = refl };
}

map_guest-IsLaid_example :
    (layout : Layout) × (w' : World mapper) × (table : Bytes) × (map_guest (Ept.new 1) 0 3 loaded
      ≡ (ok layout, w'))
    × HasBytes layout w'.heap (zeroed 0x1000) image (zeroed stack_size) table
    × IsIdentityMap pt_gpa layout.page_table w'
    × (layout.size ≡ 3)
    × (layout.stack_base_gpa ≡ 0x101000)
    × ((a : ℕ) → w'.machine a ≡ guest_view layout (λ b. none) a)
map_guest-IsLaid_example =
    map_guest-IsLaid (Ept.new 1) 0 3 image loaded (λ m a. m a) (λ h host gpa size flags m. refl)
      mapper-Translates mapper-HasSpace (omega arith) refl (omega arith)
