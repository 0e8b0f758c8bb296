-- ===== src/Process/Program.antt =====
-- A small program without an interpreter, on which the theorem on the memory of programs is applied.
use queen.Base.{
  ℕ, ◌≡◌, refl, true, if◌then◌else◌, List, [], ◌∷◌, String, none, some, arith, Outcome, done, panic,
}
use queen.Kernel.FileHandle.{Result, ok, err}
use queen.Memory.Table.{map_page, alloc_frame, set_entry}
use queen.Memory.Handler.{handler_map, map_at}
use queen.Memory.Area.{is_overlap_with, map_area, map_pages}
use queen.Memory.Page.{pages}
use queen.Memory.Set.{MemorySet, push, test_free_area, insert_index, unmap_areas}
use queen.Memory.Set.View.{IsValid, view}
use queen.Memory.SmallMachine.{FunctionTable, small_machine}
use queen.Process.Elf.{to_attr, segment_handler, farthest, push_segment}
use queen.Process.Stack.{StackWriter, push_at}
use queen.Process.Tests.{code, data_segment, no_areas}
use queen.Process.UserMemory.{ElfFile, Loaded, get_interpreter, stack_top, new_user_vm}
use queen.Process.UserMemory.Layout.{stack_region, is_some, new_user_vm-view}

abbrev static_elf : ElfFile
static_elf = record {
  headers = code ∷ data_segment ∷ [];
  ph_offset = 0x40;
  ph_entry_size = 0x38;
  ph_count = 2;
  entry_point = 0x1040;
  is_program = true;
  is_aarch64 = true;
  interp_data = none;
  is_utf8 = λ bytes. true;
}

abbrev read_static : ℕ → Result String ElfFile
read_static inode = ok static_elf

abbrev no_loader : List ℕ → Result String ℕ
no_loader path = err "interpreter not found"

abbrev Made : Type 0
Made = MemorySet FunctionTable ℕ × ℕ × StackWriter

abbrev made : Outcome (Result String Made)
made =
    new_user_vm small_machine read_static no_loader 3 ((b'l' ∷ b's' ∷ []) ∷ []) [] (λ a. 0) no_areas

abbrev made_or : Outcome (Result String Made) → Made
made_or panic = (no_areas, 0, record { sp = 0; mem = λ a. 0 })
made_or (done (err e)) = (no_areas, 0, record { sp = 0; mem = λ a. 0 })
made_or (done (ok r)) = r

made-done : made ≡ done (ok ((made_or made).0, (made_or made).1, (made_or made).2))
unfolding new_user_vm push_segment push test_free_area is_overlap_with map_area map_pages pages
    handler_map alloc_frame map_at map_page farthest set_entry insert_index unmap_areas
    get_interpreter
made-done = refl

new_user_vm-view_example :
    IsValid (made_or made).0.areas
    × (view (made_or made).0.areas 0x4100
        ≡ some (record {
          attr = to_attr data_segment;
          handler = segment_handler 3 0 data_segment;
          name = "elf";
        }))
    × (view (made_or made).0.areas 0x7fff_ffff_f000 ≡ some (stack_region 0x7fff_ffff_f000))
    × ((l : Loaded FunctionTable ℕ) × (push_at
            ((b'l' ∷ b's' ∷ []) ∷ [])
            []
            l.auxv
            (record { sp = stack_top; mem = λ a. 0 })
          ≡ done (made_or made).2)
        × (l.entry_addr ≡ (made_or made).1)
        × ((if is_some (get_interpreter static_elf)
              then static_elf.entry_point
              else (made_or made).1)
            ≡ static_elf.entry_point))
new_user_vm-view_example =
    new_user_vm-view small_machine read_static no_loader 3 ((b'l' ∷ b's' ∷ []) ∷ []) [] (λ a. 0)
      no_areas (made_or made).0 (made_or made).1 (made_or made).2 static_elf 1 0x4100
      0x7fff_ffff_f000 data_segment refl made-done refl refl (omega arith) refl
      (unfold farthest in omega arith) (omega arith) (omega arith)
