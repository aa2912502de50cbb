-- ===== src/Vmm/Entry.antt =====
-- The descriptors of kernel/mm/vmm.c: what their address field and their flags hold.
use kolibriarm.Base.{
  ℕ, ◌-◌, ◌*◌, ◌/◌, ◌%◌, ◌^◌, ◌<◌, ◌≡◌, refl, ap, ◌∙◌, Bool, true, false, not, bit_and, bit_or,
  arith, if◌then◌else◌,
}
use kolibriarm.Bits.{
  bit, bit-bit_or, bit_and-one_shl, bit_and-bit_or, bit_or-zero, bit_and-shl, bit_and-ones,
  bit_lt_two,
}
use kolibriarm.Vmm.{
  has, address_in, desc_addr_mask, desc_valid, desc_table, table_descriptor, page_descriptor,
  table_index, flag_device, flag_write, flag_user, flag_exec, desc_af, desc_attr_device, desc_uxn,
  desc_pxn, desc_sh_inner, desc_ap_ro, desc_ap_user,
}

pub address_in_lem : (e : ℕ) → address_in e ≡ e / 4096 % 2 ^ 36 * 4096
address_in_lem e = bit_and-shl 12 e (2 ^ 36 - 1) ∙ ap (λ k. k * 4096) (bit_and-ones 36 (e / 4096))

pub table_index_lem : (v l : ℕ) → table_index v l ≡ v / 2 ^ (39 - l * 9) % 512
unfolding table_index
table_index_lem v l = bit_and-ones 9 (v / 2 ^ (39 - l * 9))

pub table_index_lt : (v l : ℕ) → table_index v l < 512
table_index_lt v l = omega (arith, table_index_lem v l)

-- A descriptor of a page or table at that address.
pub record Points (address e : ℕ) : Type 0 where
  pub valid : has e desc_valid ≡ true
  pub table : has e desc_table ≡ true
  pub target : address_in e ≡ address

pub has_zero : has 0 desc_valid ≡ false
unfolding has
has_zero = refl

bit-zero_true : (x : ℕ) → bit 0 x ≡ 1 → has x 1 ≡ true
unfolding has
bit-zero_true x h = ground (arith, bit_and-one_shl 0 x)

bit-one_true : (x : ℕ) → bit 1 x ≡ 1 → has x 2 ≡ true
unfolding has
bit-one_true x h = ground (arith, bit_and-one_shl 1 x)

-- The same by bits.
record Marked (address e : ℕ) : Type 0 where
  low : bit 0 e ≡ 1
  high : bit 1 e ≡ 1
  target : address_in e ≡ address

descriptor-Points : {a e : ℕ} → Marked a e → Points a e
descriptor-Points {a} {e} m = record {
  valid = bit-zero_true e m.low;
  table = bit-one_true e m.high;
  target = m.target;
}

address_in-bit_or :
    (e flag : ℕ) → bit_and flag desc_addr_mask ≡ 0 → address_in (bit_or e flag) ≡ address_in e
address_in-bit_or e flag h =
    bit_and-bit_or e flag desc_addr_mask ∙ ap (bit_or (address_in e)) h ∙ bit_or-zero (address_in e)

more :
    {a e : ℕ} (flag : ℕ) → bit_and flag desc_addr_mask ≡ 0 → Marked a e → Marked a (bit_or e flag)
more {a} {e} flag h m = record {
  low = omega (arith, bit-bit_or 0 e flag, m.low, bit_lt_two 0 flag);
  high = omega (arith, bit-bit_or 1 e flag, m.high, bit_lt_two 1 flag);
  target = address_in-bit_or e flag h ∙ m.target;
}

-- An address field with both low bits.
base-Marked : (a : ℕ) → Marked (address_in a) (bit_or (bit_or (address_in a) 1) 2)
base-Marked a = record {
  low = omega (
    arith,
    bit-bit_or 0 (bit_or (address_in a) 1) 2,
    bit-bit_or 0 (address_in a) 1,
    bit_lt_two 0 (address_in a),
  );
  high =
      omega
        (arith, bit-bit_or 1 (bit_or (address_in a) 1) 2, bit_lt_two 1 (bit_or (address_in a) 1));
  target =
      address_in-bit_or (bit_or (address_in a) 1) 2 refl
      ∙ address_in-bit_or (address_in a) 1 refl
      ∙ omega (arith, address_in_lem a, address_in_lem (address_in a));
}

pub table_descriptor-Points : (child : ℕ) → Points (address_in child) (table_descriptor child)
table_descriptor-Points child = descriptor-Points (base-Marked child)

choose : {a x y : ℕ} (b : Bool) → Marked a x → Marked a y → Marked a (if b then x else y)
choose true m n = m
choose false m n = n

pub page_descriptor-Points :
    (paddr flags : ℕ) → Points (address_in paddr) (page_descriptor paddr flags)
unfolding page_descriptor
page_descriptor-Points paddr flags =
    let base = more desc_af refl (base-Marked paddr) in
    let kind =
      choose (has flags flag_device)
        (more desc_pxn refl (more desc_uxn refl (more desc_attr_device refl base)))
        (more desc_sh_inner refl base) in
    let write = choose (has flags flag_write) kind (more desc_ap_ro refl kind) in
    let user = choose (has flags flag_user) (more desc_ap_user refl write) write in
    descriptor-Points (
      choose (not (has flags flag_exec)) (more desc_pxn refl (more desc_uxn refl user))
        (choose (has flags flag_user) user (more desc_uxn refl user)))
