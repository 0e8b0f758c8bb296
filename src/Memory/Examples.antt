-- ===== src/Memory/Examples.antt =====
-- A text area of a program file on a small machine, on which the theorems on page faults are applied.
use queen.Base.{
  ℕ, ◌%◌, ◌≡◌, ◌↔◌, refl, true, false, ltb, leb, ◌&&◌, if◌then◌else◌, [], ◌∷◌, none, some, find,
  arith, done,
}
use queen.Memory.SmallMachine.{FunctionTable, blank_entry, small_machine}
use queen.Memory.Entry.{PageEntry}
use queen.Memory.Table.{Machine}
use queen.Memory.Handler.{file}
use queen.Memory.Area.{MemoryArea, contains}
use queen.Memory.Set.{MemorySet, handle_page_fault}
use queen.Memory.Set.Fault.{CanServe, user_byte, first_byte, page_is, handle_page_fault-user_byte}
use queen.Memory.Set.Refused.{is_refused, handle_page_fault-refused}

abbrev file_machine : Machine FunctionTable ℕ
file_machine = record small_machine {
  read_at = λ inode offset len. some len;
  file_byte = λ inode i. i % 256;
}

-- 0x2345 bytes of the file from 0x40 on, at 0x1040.
abbrev text_area : MemoryArea
text_area = record {
  start_addr = 0x1000;
  end_addr = 0x4000;
  attr = record { user = true; readonly = true; execute = true; mmio = 0 };
  handler = file 3 0x1040 0x40 0x2385;
  name = "text";
}

abbrev waiting : PageEntry
waiting = record blank_entry { valid = false }

abbrev text_set : MemorySet FunctionTable ℕ
text_set = record {
  areas = text_area ∷ [];
  space = record {
    table = λ q. if leb 1 q && ltb q 4 then some waiting else none;
    memory = record { frames = 7; byte = λ f i. 9 };
  };
}

text-found : find (λ b. contains b 0x3123) text_set.areas ≡ some text_area
unfolding contains
text-found = refl

text-CanServe : CanServe file_machine text_set.space text_area.handler 0x3123 waiting 7 8
text-CanServe = record {
  lazy_page = refl;
  here = refl;
  waits = refl;
  taken = refl;
  fresh = λ q e here valid. ground arith;
  full = λ i n h. refl;
  in_file = (omega arith, omega arith, omega arith);
}

handle_page_fault-user_byte_example :
    (ms' : MemorySet FunctionTable ℕ) × (handle_page_fault file_machine text_set 0x3123
      ≡ done (true, ms'))
    × (ms'.areas ≡ text_set.areas)
    × ((x : ℕ)
        → user_byte file_machine ms'.space x ≡ (
            if page_is file_machine 0x3123 x
            then some (first_byte file_machine text_area.handler x)
            else user_byte file_machine text_set.space x))
handle_page_fault-user_byte_example =
    handle_page_fault-user_byte file_machine text_set 0x3123 text_area waiting 7 8 text-found
      text-CanServe

handle_page_fault-refused_example :
    (handle_page_fault file_machine text_set 0x4000 ≡ done (false, text_set))
    ↔ ((text_set ≡ text_set) × (is_refused file_machine text_set 0x4000 ≡ true))
handle_page_fault-refused_example = handle_page_fault-refused file_machine text_set text_set 0x4000
