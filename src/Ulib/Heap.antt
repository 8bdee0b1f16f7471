-- ===== src/Ulib/Heap.antt =====
-- umalloc.c: malloc and free of the user programs. Memory is counted in headers, so a pointer is
-- the number of a header, and 0 is null; `base` is the header that starts the free list. sbrk gives
-- the memory from the end of the process on, up to a limit. The loops are on fuel; a call that
-- needs more is `none`.
use operating_systems_projec.Base.{
  ℕ, zero, suc, ◌+◌, ◌-◌, ◌/◌, ◌%◌, ap, ◌&&◌, ◌||◌, Option, none, some, ltb, leb, ◌==◌,
  if◌then◌else◌, update,
}
use operating_systems_projec.Ulib.{word}

pub record Header : Type 0 where
  pub ptr : ℕ
  pub size : ℕ

pub record Heap : Type 0 where
  pub mem : ℕ → Header
  pub base : ℕ
  pub freep : ℕ
  pub brk : ℕ
  pub limit : ℕ

abbrev pub ptr_of : Heap → ℕ → ℕ
ptr_of h p = (h.mem p).ptr

abbrev pub size_of : Heap → ℕ → ℕ
size_of h p = (h.mem p).size

abbrev pub set_header : ℕ → ℕ → ℕ → Heap → Heap
set_header p ptr size h = record h { mem = update h.mem p (record { ptr = ptr; size = size }) }

-- free's loop from `p` on: the header behind which `bp` belongs.
unfoldable pub place : ℕ → Heap → ℕ → ℕ → Option ℕ
place zero h bp p = none
place (suc f) h bp p =
    let next = ptr_of h p in
    let rest = place f h bp next in
    if ltb p bp && ltb bp next
    then some p
    else if leb next p && (ltb p bp || ltb bp next)
    then some p
    else rest

-- The block at `bp` joined to the one above it, or linked to it.
unfoldable pub join_above : ℕ → ℕ → Heap → Heap
join_above bp p h =
    let next = ptr_of h p in
    if bp + size_of h bp == next
    then set_header bp (ptr_of h next) (size_of h bp + size_of h next) h
    else set_header bp next (size_of h bp) h

unfoldable pub join_below : ℕ → ℕ → Heap → Heap
join_below bp p h =
    if p + size_of h p == bp
    then set_header p (ptr_of h bp) (size_of h p + size_of h bp) h
    else set_header p bp (size_of h p) h

unfoldable pub free : ℕ → Heap → ℕ → Option Heap
free fuel h ap =
    let bp = ap - 1 in
    elim (place fuel h bp h.freep) [
      | none ↦ none
      | some p ↦ some (record (join_below bp p (join_above bp p h)) { freep = p })
    ]

-- 4096 headers at least. A pointer 0 is that sbrk failed.
unfoldable pub morecore : ℕ → Heap → ℕ → Option (ℕ × Heap)
morecore fuel h nu =
    let n = if ltb nu 4096 then 4096 else nu in
    let got = set_header h.brk (ptr_of h h.brk) n (record h { brk = h.brk + n }) in
    if ltb h.limit (h.brk + n)
    then some (0, h)
    else elim (free fuel got (h.brk + 1)) [ none ↦ none | some h' ↦ some (h'.freep, h') ]

-- The block `p` is large enough: all of it, or its end.
unfoldable pub take_from : ℕ → ℕ → ℕ → Heap → ℕ × Heap
take_from nunits prevp p h =
    let q = p + (size_of h p - nunits) in
    let whole = set_header prevp (ptr_of h p) (size_of h prevp) h in
    let cut = set_header p (ptr_of h p) (size_of h p - nunits) h in
    let ended = set_header q (ptr_of cut q) nunits cut in
    if size_of h p == nunits
    then (p + 1, record whole { freep = prevp })
    else (q + 1, record ended { freep = prevp })

-- malloc's loop.
unfoldable pub malloc_from : ℕ → ℕ → ℕ → Heap → Option (ℕ × Heap)
malloc_from zero nunits prevp h = none
malloc_from (suc f) nunits prevp h =
    let p = ptr_of h prevp in
    let on = malloc_from f nunits p h in
    let more : Option (ℕ × Heap) = elim (morecore (suc f) h nunits) [
      | none ↦ none
      | some (q, h') ↦ if q == 0 then some (0, h') else malloc_from f nunits q h'
    ] in
    if leb nunits (size_of h p)
    then some (take_from nunits prevp p h)
    else if p == h.freep
    then more
    else on

-- The first call makes `base` a list of its own.
unfoldable pub malloc : ℕ → Heap → ℕ → Option (ℕ × Heap)
malloc fuel h nbytes =
    let nunits = (nbytes + 8 - 1) % word / 8 + 1 in
    let started = record (set_header h.base h.base 0 h) { freep = h.base } in
    if h.freep == 0
    then malloc_from fuel nunits h.base started
    else malloc_from fuel nunits h.freep h
