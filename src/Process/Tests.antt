-- ===== src/Process/Tests.antt =====
-- A directory in frame 2 with a table in frame 3, the kernel's directory in frame 1, and a list of two
-- processes.
use frog_kernel.Base.{
  ℕ, ◌+◌, ◌<◌, ◌≤◌, ◌≡◌, ◌⊎◌, refl, inl, inr, true, false, some, List, [], ◌∷◌, ◌++◌, arith,
  if◌then◌else◌, ◌==◌, ◌&&◌,
}
use frog_kernel.Memory.Pmm.{Pmm, bit_test, page_size}
use frog_kernel.Memory.Pmm.Bits.{used}
use frog_kernel.Memory.Paging.{Frames, Space, map_page}
use frog_kernel.Memory.Paging.Walk.{IsSpace}
use frog_kernel.Misc.Util.{Text}
use frog_kernel.Thread
use frog_kernel.Thread.Create.Frame.{Words, frame_words}
use frog_kernel.Process.{Process, Processes, running, uprocess_find}
use frog_kernel.Process.Dir.{foreign_map_page, uprocess_create_pagedir}
use frog_kernel.Process.Dir.Same.{foreign_map_page_lem}
use frog_kernel.Process.Dir.Windows.{Agree}
use frog_kernel.Process.Dir.Share.{Shares, uprocess_create_pagedir_lem}
use frog_kernel.Process.Load.{Image, Phdr, fill_page}
use frog_kernel.Process.Load.Page.{segment_byte, fill_page_lem}
use frog_kernel.Process.Load.Args.{build_stack}
use frog_kernel.Process.Load.Args.Layout.{Stacked, build_stack_lem}
use frog_kernel.Process.Create.{enlist, kstack_size, process_thread, seg_udata}
use frog_kernel.Process.Create.Ids.{IsTable, enlist-IsTable, uprocess_find-pid}
use frog_kernel.Process.Create.Start.{user_start, process_thread_lem}

abbrev pmm : Pmm
pmm = record {
  bitmap = λ i. if i == 0 then 0x0f else 0;
  total_pages = 64;
  bitmap_addr = 0xc0110000;
  bitmap_size = 8;
}

abbrev frames : Frames
frames g i = if g == 2 && i == 1 then 0x3007 else if g == 3 && i == 0 then 0x9007 else 0

abbrev space : Space
space = record { frames = frames; pmm = pmm }

space-IsSpace : IsSpace 2 space
unfolding used bit_test
space-IsSpace = record {
  valid = record { bytes = λ i. ground arith; covered = omega arith; addressable = omega arith };
  dir_used = refl;
  table_used = λ i h t. ground arith;
  not_dir = λ i h t. ground arith;
  distinct = λ i j h k t u e. ground arith;
}

kern_used : used pmm.bitmap 1 ≡ true
unfolding used bit_test
kern_used = refl

-- A page that the table has, and the frame 0xa000.
foreign_map_page_lem_example :
    Agree 1 (foreign_map_page space 1 0x2000 0xa000 0x401000 7) (map_page space 2 0xa000 0x401000 7)
foreign_map_page_lem_example =
    foreign_map_page_lem 1 space 0x2000 0xa000 0x401000 7 refl space-IsSpace (λ e. omega arith)
      kern_used (λ h e. omega arith)

uprocess_create_pagedir_lem_example : Shares 2 space (uprocess_create_pagedir space 2)
uprocess_create_pagedir_lem_example = uprocess_create_pagedir_lem 2 space space-IsSpace

-- 32 bytes of a file at 0x400010, in the frame at 0x5000.
abbrev header : Phdr
header = record {
  p_type = 1;
  p_offset = 0x1000;
  p_vaddr = 0x400010;
  p_filesz = 32;
  p_memsz = 64;
  p_flags = 5;
}

abbrev image : Image
image = record { space = space; bytes = λ f i. 0xff }

fill_page_lem_example :
    ((i : ℕ)
      → i < page_size
      → (fill_page image 2 0x5000 (λ i. i) header 0x400000).bytes 5 i
        ≡ segment_byte (λ i. i) header (0x400000 + i))
    × ((g i : ℕ)
        → (g == 5) ≡ false
        → (fill_page image 2 0x5000 (λ i. i) header 0x400000).bytes g i ≡ image.bytes g i)
fill_page_lem_example =
    fill_page_lem image 2 0x5000 (λ i. i) header 0x400000 refl (omega arith) (omega arith)
      (omega arith)

-- "ls" and "-l"
abbrev args : List Text
args = (b'l' ∷ b's' ∷ []) ∷ (b'-' ∷ b'l' ∷ []) ∷ []

build_stack_lem_example : Stacked args (build_stack args).0 (build_stack args).1
build_stack_lem_example = build_stack_lem args (omega arith)

process_thread_lem_example :
    (let (t, m') = process_thread (λ i. 0) 0xe0000000 0xd0000014 0x400000 0xaffffff0 in
      (t.esp + 76 ≡ 0xe0000000 + kstack_size)
      × (t.state ≡ Thread.ready)
      × (t.process ≡ 0xd0000014)
      × Words m' t.esp (frame_words (user_start 0x400000) ++ 0xaffffff0 ∷ seg_udata ∷ [])
      × ((i : ℕ) → (i < t.esp) ⊎ (0xe0000000 + kstack_size ≤ i) → m' i ≡ 0))
process_thread_lem_example =
    process_thread_lem (λ i. 0) 0xe0000000 0xd0000014 0x400000 0xaffffff0 (omega arith)

abbrev process : (pid next : ℕ) → Process
process n p = record {
  pid = n;
  page_dir = 0x2000;
  entry = 0x400000;
  thread = 0;
  state = running;
  parent = 0;
  next = p;
  exit_code = 0;
  heap_start = 0;
  heap_end = 0;
}

-- Process 2 at 200, then process 1 at 100.
abbrev processes : Processes
processes = record {
  procs = λ p. if p == 200 then process 2 100 else process 1 0;
  process_list = 200;
  next_pid = 3;
}

processes-IsTable : IsTable processes (200 ∷ 100 ∷ [])
processes-IsTable = record {
  lists = record {
    chain = (refl, (λ e. omega arith), (refl, (λ e. omega arith), refl));
    distinct = (((λ e. omega arith), tt), (tt, tt));
  };
  numbered =
      (omega arith, omega arith, ((λ e. omega arith), tt), (omega arith, omega arith, tt, tt));
  next_pid = omega arith;
}

enlist-IsTable_example :
    (let s' = enlist processes 300 0 0x400000 0x2000 0x500000 in
      IsTable s' (300 ∷ 200 ∷ 100 ∷ [])
      × ((s'.procs 300).pid ≡ processes.next_pid)
      × (s'.next_pid ≡ processes.next_pid + 1))
enlist-IsTable_example =
    enlist-IsTable processes (200 ∷ 100 ∷ []) 300 0 0x400000 0x2000 0x500000 processes-IsTable
      (λ e. omega arith) ((λ e. omega arith), ((λ e. omega arith), tt)) (omega arith)

uprocess_find-pid_example : uprocess_find 3 processes 1 ≡ some 100
uprocess_find-pid_example =
    uprocess_find-pid 3 processes (200 ∷ 100 ∷ []) 100 processes-IsTable (inr (inl refl))
      (omega arith)
