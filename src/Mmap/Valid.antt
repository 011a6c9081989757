-- ===== src/Mmap/Valid.antt =====
-- The requests that sys_mmap accepts, apart from the code's own test.
use osp.Prelude.{
  ◌-◌, ◌/◌, ◌%◌, ◌^◌, ◌≤◌, ◌<◌, ◌≡◌, ◌≢◌, refl, ◌⊎◌, inl, inr, true, false, not, true≢false, arith,
  ◌==◌, ◌&&◌, ◌||◌, Bool-cases, sym, ◌∙◌,
}
use osp.Mmu.{flag, pgsize}
use osp.Proc.{Proc, nofile}
use osp.Mmap.{
  mmap_area_start, mmap_area_end, map_fixed, map_shared, map_private, map_anonymous, minus_one, slt,
  MmapArgs, bad_args,
}

-- A positive length; an address that is 0 or a page of the area; MAP_SHARED (2) or MAP_PRIVATE (1);
-- with MAP_ANONYMOUS (4) descriptor -1 and offset 0, otherwise the descriptor of an open file; and
-- with MAP_FIXED (8) an address.
pub record IsValid (p : Proc) (a : MmapArgs) : Type 0 where
  pub length : (0 < a.length) × (a.length % 2 ^ 32 < 2 ^ 31)
  pub addr :
      (a.addr ≡ 0)
      ⊎ ((0x6000_0000 ≤ a.addr % 2 ^ 32) × (a.addr % 2 ^ 32 ≤ 0x7FFF_F000) × (a.addr % 4096 ≡ 0))
  pub kind : (a.flags / 2 % 2 ≡ 1) ⊎ (a.flags % 2 ≡ 1)
  pub backing :
      ((a.flags / 4 % 2 ≡ 1) × (a.fd ≡ 0xFFFF_FFFF) × (a.offset ≡ 0))
      ⊎ ((a.flags / 4 % 2 ≡ 0) × (a.fd % 2 ^ 32 < 16) × (p.ofile a.fd ≢ 0))
  pub fixed : a.flags / 8 % 2 ≡ 1 → a.addr ≢ 0

module _ (p : Proc) (a : MmapArgs) where
  pub bad_args-false : bad_args p a ≡ false → IsValid p a
  unfolding bad_args
  bad_args-false h = record {
    length = (ground arith, ground arith);
    addr = elim (Bool-cases (a.addr == 0)) [
      | inl y ↦ inl (ground arith)
      | inr n ↦ inr (ground arith, ground arith, ground arith)
    ];
    kind = elim (Bool-cases (flag a.flags map_shared)) [
      | inl y ↦ inl (ground arith)
      | inr n ↦ inr (ground arith)
    ];
    backing = elim (Bool-cases (flag a.flags map_anonymous)) [
      | inl y ↦ inl (ground arith, ground arith, ground arith)
      | inr n ↦ inr (ground arith, ground arith, ground arith)
    ];
    fixed = λ f. ground arith;
  }

  -- The tests of bad_args, one by one.
  good_length : IsValid p a → (a.length == 0 || slt a.length 0) ≡ false
  good_length v = let (pos, small) = v.length in ground arith

  good_addr :
      IsValid p a
      → (not (a.addr == 0)
          && (slt a.addr mmap_area_start
              || slt (mmap_area_end - pgsize) a.addr
              || not (a.addr % pgsize == 0)))
        ≡ false
  good_addr v = elim v.addr [ inl z ↦ ground arith | inr (low, high, page) ↦ ground arith ]

  good_kind : IsValid p a → not (flag a.flags map_shared || flag a.flags map_private) ≡ false
  good_kind v = elim v.kind [ inl s ↦ ground arith | inr s ↦ ground arith ]

  good_anonymous :
      IsValid p a
      → (flag a.flags map_anonymous && (not (a.fd == minus_one) || not (a.offset == 0))) ≡ false
  good_anonymous v = elim v.backing [ inl (f, d, o) ↦ ground arith | inr (f, d, o) ↦ ground arith ]

  good_fixed :
      IsValid p a → (flag a.flags map_fixed && (a.addr == 0 || not (a.addr % pgsize == 0))) ≡ false
  good_fixed v = elim (Bool-cases (flag a.flags map_fixed)) [
    | inl f ↦
        let ne : a.addr ≢ 0 = v.fixed (ground arith) in
        elim v.addr [ inl z ↦ absurd (ne z) | inr (low, high, page) ↦ ground arith ]
    | inr f ↦ ground arith
  ]

  good_file :
      IsValid p a
      → (not (flag a.flags map_anonymous)
          && (slt a.fd 0 || not (slt a.fd nofile) || p.ofile a.fd == 0))
        ≡ false
  good_file v = elim v.backing [ inl (f, d, o) ↦ ground arith | inr (f, d, o) ↦ ground arith ]

  IsValid-good : IsValid p a → bad_args p a ≡ false
  unfolding bad_args
  IsValid-good v = rw (good_length v) (
      rw (good_addr v)
        (rw (good_kind v) (rw (good_anonymous v) (rw (good_fixed v) (rw (good_file v) refl)))))

  pub bad_args-true : bad_args p a ≡ true → ¬ IsValid p a
  bad_args-true h = λ v. true≢false (sym h ∙ IsValid-good v)
