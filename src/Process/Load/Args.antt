-- ===== src/Process/Load/Args.antt =====
-- The first stack page of a program, at the end of `uprocess_load` of src/userspace/uprocess.c: the
-- arguments, the pointers to them, and `argc` and `argv`. The page is built in a buffer; a write
-- below its start is a write to the memory before it.
pub mod Layout
pub mod Texts
use frog_kernel.Base.{
  ℕ, zero, suc, ◌+◌, ◌-◌, ◌*◌, ◌/◌, ◌%◌, ◌^◌, List, [], ◌∷◌, length, get_or, ◌==◌, if◌then◌else◌,
}
use frog_kernel.Base.Store.{Array, update, Outcome, ok, panic, ◌>>=◌}
use frog_kernel.Memory.Pmm.{Pmm, alloc_frame, page_size}
use frog_kernel.Memory.Paging.{Space}
use frog_kernel.Misc.Util.{Text}
use frog_kernel.Process.Dir.{foreign_map_page}
use frog_kernel.Process.Load.{
  Image, user_stack_top, copy_bytes, zero_phys, copy_to_phys, half_at, word_at, load_segments,
}

-- `USER_STACK_TOP - PAGE_SIZE`
abbrev pub stack_page : ℕ
stack_page = user_stack_top - page_size

-- `buf_offset -= n` on uint32_t
abbrev pub lower : (offset n : ℕ) → ℕ
lower o n = (o + 2 ^ 32 - n) % 2 ^ 32

-- `memcpy(page_buf + buf_offset, argv[i], strlen(argv[i]) + 1)`
abbrev pub put_text : Array ℕ → (offset : ℕ) → Text → Array ℕ
put_text buf o s = copy_bytes buf o (λ j. get_or s j 0) 0 (length s + 1)

-- The loop over the arguments, from the last to the first: the buffer, `buf_offset` and
-- `str_vaddrs`.
unfoldable pub push_texts : Array ℕ → (offset : ℕ) → List Text → Array ℕ × ℕ × List ℕ
push_texts buf o [] = (buf, o, [])
push_texts buf o (s ∷ ss) =
    let (buf', o', ptrs) = push_texts buf o ss in
    let at = lower o' (length s + 1) in (put_text buf' at s, at, (stack_page + at) % 2 ^ 32 ∷ ptrs)

-- `*(uint32_t *)(page_buf + buf_offset) = v`
unfoldable pub put_word : Array ℕ → (offset v : ℕ) → Array ℕ
put_word buf o v =
    update
      (update (update (update buf o (v % 0x100)) (o + 1) (v / 0x100 % 0x100)) (o + 2)
        (v / 0x10000 % 0x100))
      (o + 3) (v / 0x1000000 % 0x100)

-- `buf_offset -= 4;` and a word, for each word of a list, from the last to the first.
unfoldable pub push_words : Array ℕ → (offset : ℕ) → List ℕ → Array ℕ × ℕ
unfolding put_word
push_words buf o [] = (buf, o)
push_words buf o (v ∷ vs) =
    let (buf', o') = push_words buf o vs in (put_word buf' (lower o' 4) v, lower o' 4)

-- The words behind the arguments: NULL, the pointers, `argv` and `argc`.
unfoldable pub push_argv : (argc : ℕ) → Array ℕ × ℕ × List ℕ → Array ℕ × ℕ
unfolding push_words
push_argv argc (buf, o, ptrs) =
    let (buf1, o1) = push_words buf (o / 4 * 4) (0 ∷ []) in
    let (buf2, o2) = push_words buf1 o1 ptrs in
    push_words buf2 o2 (argc ∷ (stack_page + o2) % 2 ^ 32 ∷ [])

-- The page and `initial_user_esp`.
unfoldable pub build_stack : List Text → Array ℕ × ℕ
unfolding push_texts push_argv
build_stack argv =
    let (page, o) = push_argv (length argv) (push_texts (λ i. 0) page_size argv) in
    (page, (stack_page + o) % 2 ^ 32)

-- The two pages of the stack, of which the upper one gets the page that was built.
unfoldable pub load_stack : (kern pd_phys : ℕ) → List Text → Image → Outcome (ℕ × Image)
unfolding build_stack
load_stack kern pd_phys argv img =
    let (page, esp) = build_stack argv in
    alloc_frame img.space.pmm >>= λ r0.
    (alloc_frame r0.1 >>= λ r1.
    (foreign_map_page (record img.space { pmm = r1.1 }) kern pd_phys r0.0
        (user_stack_top - page_size * 2) 0x7
      >>= λ s0.
          (foreign_map_page s0 kern pd_phys r1.0 stack_page 0x7 >>= λ s1.
          (let zeroed =
              zero_phys (zero_phys (record img { space = s1 }) kern r0.0 0 page_size) kern r1.0 0
                page_size in
            ok (esp, copy_to_phys zeroed kern r1.0 0 page 0 page_size)))))

-- What `uprocess_load` returns and stores: `e_entry`, `heap_start`, `initial_user_esp`, the image.
pub record Loaded : Type 0 where
  pub entry : ℕ
  pub heap_start : ℕ
  pub esp : ℕ
  pub image : Image

abbrev pub elf_magic : ℕ
elf_magic = 0x464c457f

abbrev pub et_exec : ℕ
et_exec = 2

unfoldable pub uprocess_load :
    (kern pd_phys : ℕ) → (file : Array ℕ) → (argv : List Text) → Image → Outcome Loaded
unfolding load_stack half_at word_at load_segments
uprocess_load kern pd_phys file argv img =
    if word_at file 0 == elf_magic
    then if half_at file 16 == et_exec
      then (load_segments kern pd_phys file (half_at file 44) 0 (0, img) >>= λ r.
          (load_stack kern pd_phys argv r.1 >>= λ q. ok (record {
            entry = word_at file 24;
            heap_start = (r.0 + page_size - 1) % 2 ^ 32 / page_size * page_size;
            esp = q.0;
            image = q.1;
          })))
      else panic
    else panic
