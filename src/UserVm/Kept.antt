-- ===== src/UserVm/Kept.antt =====
-- What the calls between the allocator and the page tables keep of the tables, for kernel/user_vm.c.
use kolibriarm.Base.{ℕ, ◌∙◌, arith}
use kolibriarm.Pmm.{Pmm}
use kolibriarm.Pmm.Ranges.{Marks}
use kolibriarm.Vmm.{Vm}
use kolibriarm.Vmm.Tree.{Tree}

-- Handing out pages that were free keeps the tables.
pub taken-Tree :
    (pgd p n : ℕ) (s : Vm) (left : Pmm)
    → Tree pgd s
    → Marks 1 p n s.pmm left
    → Tree pgd (record s { pmm = left })
taken-Tree pgd p n s left tree marks = record {
  pages = marks.valid;
  low = omega (arith, tree.low, marks.base, marks.total);
  above = omega (arith, tree.above, marks.base);
  owned = λ l v t h r.
      let (q, k, at, used) = tree.owned l v t h r in
      (q, omega (arith, marks.total), omega (arith, marks.base), marks.bits q ∙ ground arith);
  apart = tree.apart;
  tables = tree.tables;
}
