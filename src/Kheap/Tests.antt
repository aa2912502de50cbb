-- ===== src/Kheap/Tests.antt =====
-- Runs of kernel/mm/kheap.c on an empty heap over ten free pages.
use kolibriarm.Base.{ℕ, refl, [], arith, Option}
use kolibriarm.Pmm.{Pmm, init}
use kolibriarm.Pmm.Ranges.{IsFresh, init-IsFresh}
use kolibriarm.Kheap.{Heap, kmalloc, kfree}
use kolibriarm.Kheap.Cover.{nil, covers}
use kolibriarm.Kheap.Extend.{IsValid}
use kolibriarm.Kheap.Alloc.{AllocOutcome, allocated, refused, kmalloc_lem}
use kolibriarm.Kheap.Free.{FreeOutcome, kfree_lem}

abbrev ten : Pmm
ten = init 0x40000000 40960

abbrev empty : Heap
empty = record { blocks = []; total_bytes = 0; next_arena_id = 1; pmm = ten }

fresh : IsFresh 0x40000000 40960 ten
fresh = init-IsFresh 0x40000000 40960 refl (omega arith)

empty-IsValid : IsValid empty
unfolding covers
empty-IsValid = record {
  pages = fresh.valid;
  above = omega (arith, fresh.base_kept);
  sound = nil;
  single = λ a. omega arith;
  held = λ a h. absurd (omega arith);
}

kmalloc_lem_example : AllocOutcome 100 empty (kmalloc 100 empty)
kmalloc_lem_example = kmalloc_lem 100 empty empty-IsValid (omega arith)

-- The heap after a call of `kmalloc` for a hundred bytes.
abbrev hundred : Heap
hundred = (kmalloc 100 empty).1

IsValid-after : (r : Option ℕ × Heap) → AllocOutcome 100 empty r → IsValid r.1
IsValid-after r (allocated address n e enough at free used valid) = valid
IsValid-after r (refused e used valid) = valid

kfree_lem_example : FreeOutcome 0x40000030 hundred (kfree 0x40000030 hundred)
kfree_lem_example =
    kfree_lem 0x40000030 hundred
      (IsValid-after _ (kmalloc_lem 100 empty empty-IsValid (omega arith)))
