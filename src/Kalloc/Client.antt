-- ===== src/Kalloc/Client.antt =====
-- A client's calls in order: the allocator behaves as a stack of distinct free pages.
use osp.Prelude.{ℕ, ◌<◌, ◌≡◌, refl, Option, some, List, [], ◌∷◌, ◌>>=◌}
use osp.Kalloc.{Kmem, kfree, kalloc}
use osp.Kalloc.FreeList.{IsPage, NotIn, Free, kfree-push, kalloc-pop, kalloc-empty}

pub data Call : Type 0 where
  alloc : Call
  free : ℕ → Call

-- The stack: what the calls return, 0 when no page is left.
unfoldable pub replies : List Call → List ℕ → List ℕ
replies [] xs = []
replies (alloc ∷ calls) [] = 0 ∷ replies calls []
replies (alloc ∷ calls) (x ∷ xs) = x ∷ replies calls xs
replies (free v ∷ calls) xs = replies calls (v ∷ xs)

module _ (kernel_end : ℕ) where
  -- The client frees only pages, and none that is free already.
  abbrev pub IsLegal : List Call → List ℕ → Type 0
  IsLegal [] xs = Unit
  IsLegal (alloc ∷ calls) [] = IsLegal calls []
  IsLegal (alloc ∷ calls) (x ∷ xs) = IsLegal calls xs
  IsLegal (free v ∷ calls) xs = IsPage kernel_end v × NotIn v xs × IsLegal calls (v ∷ xs)

  -- The same calls of kalloc.c.
  pub run : List Call → Kmem → Option (List ℕ)
  run [] k = some []
  run (alloc ∷ calls) k = do rest ← run calls (kalloc k).1; some ((kalloc k).0 ∷ rest)
  run (free v ∷ calls) k = kfree kernel_end v k >>= run calls

  -- Whatever the calls, a legal client never meets a panic and sees exactly the stack's replies.
  pub run-replies :
      (calls : List Call) (k : Kmem) (xs : List ℕ)
      → 0 < kernel_end
      → Free kernel_end k xs
      → IsLegal calls xs
      → run calls k ≡ some (replies calls xs)
  unfolding run replies
  run-replies [] k xs pos f legal = refl
  run-replies (alloc ∷ calls) k [] pos f legal =
      rw (kalloc-empty kernel_end k f, run-replies calls k [] pos f legal)
  run-replies (alloc ∷ calls) k (x ∷ xs) pos f legal =
      let (e, f', _) = kalloc-pop kernel_end k x xs pos f in
      rw (run-replies calls (kalloc k).1 xs pos f' legal, e)
  run-replies (free v ∷ calls) k xs pos f legal =
      let (k', e, f', _) = kfree-push kernel_end v k xs f legal.0 legal.1 in
      rw e (run-replies calls k' (v ∷ xs) pos f' legal.2)
