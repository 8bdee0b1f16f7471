-- ===== src/Kalloc.antt =====
-- kalloc.c, with the address macros of memlayout.h and mmu.h: the allocator of physical pages.
-- A free page holds the address of the next free page in its first word, so the free list lies in
-- the memory that it hands out; `mem` gives the 32-bit word at each (word-aligned) address. `kend`
-- is `end`, the address that the linker gives the first byte after the kernel. The list is touched
-- only between acquire and release of kmem.lock (see Spinlock), so each call is one step.
pub mod Chain
pub mod Pages
pub mod Range
mod Tests
use operating_systems_projec.Base.{
  ℕ, zero, suc, ◌+◌, ◌-◌, ◌*◌, ◌/◌, ◌%◌, ◌^◌, ◌==◌, ltb, leb, if◌then◌else◌, Bool, ◌&&◌, ◌||◌, not,
  update, Result, ok, panic, ◌>>=◌,
}

abbrev pub pgsize : ℕ
pgsize = 4096

abbrev pub word : ℕ
word = 2 ^ 32

abbrev pub kernbase : ℕ
kernbase = 0x80000000

abbrev pub phystop : ℕ
phystop = 0xE000000

abbrev pub v2p : ℕ → ℕ
v2p a = (a + word - kernbase) % word

abbrev pub p2v : ℕ → ℕ
p2v a = (a + kernbase) % word

-- `& ~(PGSIZE-1)` clears the twelve low bits.
abbrev pub pg_round_down : ℕ → ℕ
pg_round_down a = a / pgsize * pgsize

abbrev pub pg_round_up : ℕ → ℕ
pg_round_up sz = pg_round_down ((sz + pgsize - 1) % word)

pub record Kmem : Type 0 where
  pub use_lock : Bool
  pub freelist : ℕ
  pub free_frame_cnt : ℕ
  pub mem : ℕ → ℕ

-- memset over a whole page, whose words become `w`.
abbrev pub fill_page : (ℕ → ℕ) → ℕ → ℕ → ℕ → ℕ
fill_page mem v w a = if leb v a && ltb a (v + pgsize) then w else mem a

abbrev pub bad_page : ℕ → ℕ → Bool
bad_page kend v = not (v % pgsize == 0) || ltb v kend || leb phystop (v2p v)

abbrev pub junk : ℕ
junk = 0x01010101

unfoldable pub kfree : ℕ → Kmem → ℕ → Result Kmem
kfree kend k v =
    if bad_page kend v
    then panic
    else ok (record k {
      mem = update (fill_page k.mem v junk) v k.freelist;
      freelist = v;
      free_frame_cnt = (k.free_frame_cnt + 1) % word;
    })

-- The page (0 if there is none), and the allocator after the call.
unfoldable pub kalloc : Kmem → ℕ × Kmem
kalloc k = if k.freelist == 0 then (0, k) else (
  k.freelist,
  record k { free_frame_cnt = (k.free_frame_cnt + word - 1) % word; freelist = k.mem k.freelist },
)

-- `for(; p + PGSIZE <= vend; p += PGSIZE) kfree(p)`, on fuel.
unfoldable pub free_from : ℕ → ℕ → Kmem → ℕ → ℕ → Result Kmem
free_from zero kend k p vend = ok k
free_from (suc f) kend k p vend =
    let rest = kfree kend k p >>= λ k'. free_from f kend k' (p + pgsize) vend in
    if leb (p + pgsize) vend then rest else ok k

unfoldable pub freerange : ℕ → Kmem → ℕ → ℕ → Result Kmem
unfolding free_from
freerange kend k vstart vend = free_from (vend / pgsize + 1) kend k (pg_round_up vstart) vend

unfoldable pub kinit1 : ℕ → Kmem → ℕ → ℕ → Result Kmem
kinit1 kend k vstart vend = freerange kend (record k { use_lock = Bool.false }) vstart vend

unfoldable pub kinit2 : ℕ → Kmem → ℕ → ℕ → Result Kmem
kinit2 kend k vstart vend = do
  k' ← freerange kend k vstart vend
  ok (record k' { use_lock = Bool.true })
