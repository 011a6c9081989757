-- ===== src/Tests/Kalloc.antt =====
-- The theorems on kalloc.c at a small free list.
use osp.Prelude.{ℕ, ◌≡◌, refl, false, some, List, [], ◌∷◌, arith}
use osp.Kalloc.{Kmem, kalloc}
use osp.Kalloc.FreeList.{IsPage, Free, kalloc-pop}
use osp.Kalloc.Client.{Call, alloc, free, replies, run, run-replies}

-- The kernel ends at 0x80100000, and one page above it is free.
abbrev kend : ℕ
kend = 0x8010_0000

abbrev page0 : ℕ
page0 = 0x8010_1000

abbrev page1 : ℕ
page1 = 0x8010_2000

abbrev start : Kmem
start = record { mem = λ _. 0; freelist = 0; use_lock = false }

abbrev one_free : Kmem
one_free = record start { freelist = page0 }

one_free-Free : Free kend one_free (page0 ∷ [])
one_free-Free = (refl, omega arith, tt, refl)

page1-IsPage : IsPage kend page1
page1-IsPage = omega arith

kalloc-pop_example :
    ((kalloc one_free).0 ≡ page0)
    × Free kend (kalloc one_free).1 []
    × ((kalloc one_free).1.mem ≡ one_free.mem)
kalloc-pop_example = kalloc-pop kend one_free page0 [] (omega arith) one_free-Free

abbrev calls : List Call
calls = free page1 ∷ alloc ∷ alloc ∷ alloc ∷ free page0 ∷ alloc ∷ []

run-replies_example : run kend calls one_free ≡ some (page1 ∷ page0 ∷ 0 ∷ page0 ∷ [])
unfolding replies
run-replies_example =
    run-replies kend calls one_free (page0 ∷ []) (omega arith) one_free-Free (omega arith)
