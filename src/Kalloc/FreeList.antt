-- ===== src/Kalloc/FreeList.antt =====
-- kalloc.c refines a stack of free pages: the list that `freelist` and the pages' first words thread.
use osp.Prelude.{
  ◌^◌, ℕ, ◌%◌, ◌≤◌, ◌<◌, ◌≡◌, ◌≢◌, refl, false, some, List, [], ◌∷◌, arith, ◌==◌, update, All, sym,
  subst,
}
use osp.Mmu.{pgsize, phystop, v2p}
use osp.Kalloc.{Kmem, fill_page, kfree, kalloc}

-- A page that `kfree` accepts: aligned, above the kernel, below the top of memory.
pub record IsPage (kernel_end v : ℕ) : Type 0 where
  pub aligned : v % pgsize ≡ 0
  pub above : kernel_end ≤ v
  pub below : v2p v < phystop
  pub word : v < 2 ^ 32

abbrev pub NotIn : ℕ → List ℕ → Type 0
NotIn v xs = All (λ x. x ≢ v) xs

module _ (kernel_end : ℕ) where
  -- From `p` the first words of the pages lead through the distinct pages `xs` to 0.
  abbrev pub Chain : (ℕ → ℕ) → ℕ → List ℕ → Type 0
  Chain mem p [] = p ≡ 0
  Chain mem p (x ∷ xs) = (p ≡ x) × IsPage kernel_end x × NotIn x xs × Chain mem (mem x) xs

  -- What the allocator's state stands for.
  abbrev pub Free : Kmem → List ℕ → Type 0
  Free k xs = Chain k.mem k.freelist xs

  -- Filling another page and linking it leaves a chain alone.
  Chain-frame :
      (mem : ℕ → ℕ) (p v n : ℕ) (xs : List ℕ)
      → IsPage kernel_end v
      → NotIn v xs
      → Chain mem p xs
      → Chain (update (fill_page v mem) v n) p xs
  Chain-frame mem p v n [] pg out c = c
  Chain-frame mem p v n (x ∷ xs) pg out c =
      let same : update (fill_page v mem) v n x ≡ mem x = ground arith in
      (c.0, c.1, c.2, rw same (Chain-frame mem (mem x) v n xs pg out.1 c.3))

  pub kfree-push :
      (v : ℕ) (k : Kmem) (xs : List ℕ)
      → Free k xs
      → IsPage kernel_end v
      → NotIn v xs
      → (k' : Kmem) × (kfree kernel_end v k ≡ some k')
        × Free k' (v ∷ xs)
        × (k'.use_lock ≡ k.use_lock)
  unfolding kfree
  kfree-push v k xs f pg out = (
    record k { mem = update (fill_page v k.mem) v k.freelist; freelist = v },
    ground arith,
    (refl, pg, out, rw here (Chain-frame k.mem k.freelist v k.freelist xs pg out f)),
    refl,
  )
    where
      here : update (fill_page v k.mem) v k.freelist v ≡ k.freelist
      here = ground arith

  -- `kalloc` takes the page that was freed last.
  pub kalloc-pop :
      (k : Kmem) (x : ℕ) (xs : List ℕ)
      → 0 < kernel_end
      → Free k (x ∷ xs)
      → ((kalloc k).0 ≡ x) × Free (kalloc k).1 xs × ((kalloc k).1.mem ≡ k.mem)
  unfolding kalloc
  kalloc-pop k x xs pos f =
      let live : (k.freelist == 0) ≡ false = ground arith in
      rw live (f.0, subst (λ p. Chain k.mem (k.mem p) xs) (sym f.0) f.3, refl)

  -- With no page left `kalloc` returns 0 and changes nothing.
  pub kalloc-empty : (k : Kmem) → Free k [] → kalloc k ≡ (0, k)
  unfolding kalloc
  kalloc-empty k f = ground arith

  -- A change of memory inside the page `v` leaves a chain of other pages alone.
  pub Chain-agree :
      (mem mem' : ℕ → ℕ) (p v : ℕ) (xs : List ℕ)
      → ((y : ℕ) → IsPage kernel_end y → y ≢ v → mem' y ≡ mem y)
      → NotIn v xs
      → Chain mem p xs
      → Chain mem' p xs
  Chain-agree mem mem' p v [] same out c = c
  Chain-agree mem mem' p v (x ∷ xs) same out c =
      (c.0, c.1, c.2, rw (same x c.1 out.0) (Chain-agree mem mem' (mem x) v xs same out.1 c.3))
