-- ===== src/Allocator.antt =====
-- memory/allocator.c: a first-fit heap over a sorted free list of blocks. A block's header is its
-- size and the pointer to the next free block; the model's memory holds a header at every address.
pub mod Spec
pub mod Chain
pub mod Malloc
pub mod Free
pub mod Owned
pub mod RoundTrip
mod Examples
pub mod Overflow
use eitan_os.Base.{
  ℕ, zero, suc, ◌+◌, ◌-◌, ◌*◌, ◌/◌, ◌%◌, ◌^◌, Bool, true, false, ◌&&◌, not, ◌==◌, leb, ltb,
  if◌then◌else◌, add64, sub64,
}

abbrev pub null : ℕ
null = 0

-- `block_t`
pub record Block : Type 0 where
  pub size : ℕ
  pub next : ℕ

abbrev pub header_size : ℕ
header_size = 16

abbrev pub align : ℕ
align = 8

-- A heap: `free_list` of its `allocator_data`, and the headers in memory.
pub record Heap : Type 0 where
  pub free_list : ℕ
  pub mem : ℕ → Block

abbrev pub update : (ℕ → Block) → ℕ → Block → ℕ → Block
update mem p b q = if q == p then b else mem q

abbrev pub write : Heap → ℕ → Block → Heap
write h p b = record h { mem = update h.mem p b }

-- `if (prev) prev->next = q; else *free_list_ptr = q;`
abbrev pub link : ℕ → ℕ → Heap → Heap
link prev q h =
    if prev == null
    then record h { free_list = q }
    else write h prev (record (h.mem prev) { next = q })

-- What runs: it comes to a value, it stops the machine, or the fuel of the model was too small.
pub data Run {ℓ} (A : Type ℓ) : Type ℓ where
  done : A → Run A
  panic : Run A
  out_of_fuel : Run A

-- `ALIGN_UP(size + sizeof(block_t))` in `size_t`
pub request : ℕ → ℕ
request size = add64 (add64 size header_size) (align - 1) / align * align

-- The block is split: its rest becomes a free block in its place.
pub split_block : ℕ → (prev curr : ℕ) → Heap → Heap
split_block size prev curr h =
    let b = h.mem curr in
    let next = add64 curr size in
    let cut = write h next (record { size = b.size - size; next = b.next }) in
    let linked = link prev next cut in write linked curr (record (linked.mem curr) { size = size })

-- The body of the loop where `curr->size >= size`.
pub take_block : ℕ → (prev curr : ℕ) → Heap → ℕ × Heap
take_block size prev curr h =
    let alloc_ptr = add64 curr header_size in
    if leb (header_size + align) ((h.mem curr).size - size)
    then (alloc_ptr, split_block size prev curr h)
    else (alloc_ptr, link prev (h.mem curr).next h)

pub malloc_loop : ℕ → ℕ → (prev curr : ℕ) → Heap → Run (ℕ × Heap)
malloc_loop zero size prev curr h = out_of_fuel
malloc_loop (suc fuel) size prev curr h =
    let rest = malloc_loop fuel size curr (h.mem curr).next h in
    if curr == null
    then done (null, h)
    else if leb size (h.mem curr).size
    then done (take_block size prev curr h)
    else rest

pub malloc_internal : ℕ → Heap → ℕ → Run (ℕ × Heap)
unfolding malloc_loop request
malloc_internal fuel h size =
    if size == 0 then done (null, h) else malloc_loop fuel (request size) null h.free_list h

-- `blk->size += blk->next->size; blk->next = blk->next->next;` where the next block touches
pub join_next : ℕ → Heap → Heap
join_next blk h =
    let b = h.mem blk in
    let n = h.mem b.next in
    if not (b.next == null) && (add64 blk b.size == b.next)
    then write h blk (record { size = add64 b.size n.size; next = n.next })
    else h

-- `prev->size += blk->size; prev->next = blk->next;` where the previous block touches
pub join_prev : ℕ → ℕ → Heap → Heap
join_prev prev blk h =
    let p = h.mem prev in
    let b = h.mem blk in
    if not (prev == null) && (add64 prev p.size == blk)
    then write h prev (record { size = add64 p.size b.size; next = b.next })
    else h

-- `free_internal` behind its loop, with the place that the loop found.
pub put_block : (blk prev curr : ℕ) → Heap → Heap
put_block blk prev curr h =
    let pointed = write h blk (record (h.mem blk) { next = curr }) in
    join_prev prev blk (join_next blk (link prev blk pointed))

pub free_loop : ℕ → (blk prev curr : ℕ) → Heap → Run Heap
free_loop zero blk prev curr h = out_of_fuel
free_loop (suc fuel) blk prev curr h =
    let rest = free_loop fuel blk curr (h.mem curr).next h in
    if not (curr == null) && ltb curr blk then rest else done (put_block blk prev curr h)

pub free_internal : ℕ → Heap → ℕ → Run Heap
unfolding free_loop
free_internal fuel h ptr =
    if ptr == null then done h else free_loop fuel (sub64 ptr header_size) null h.free_list h

-- The file's statics and what stands on the data pages. Kernel and process heaps lie at different
-- addresses, so each has its own headers.
pub record Allocator : Type 0 where
  pub kernel_heap_initialized : Bool
  pub is_kernel : Bool
  pub kernel : Heap
  pub user : Heap

abbrev on_kernel : Allocator → Run (ℕ × Heap) → Run (ℕ × Allocator)
on_kernel a (done (p, h)) = done (p, record a { kernel = h })
on_kernel a panic = panic
on_kernel a out_of_fuel = out_of_fuel

abbrev on_user : Allocator → Run (ℕ × Heap) → Run (ℕ × Allocator)
on_user a (done (p, h)) = done (p, record a { user = h })
on_user a panic = panic
on_user a out_of_fuel = out_of_fuel

pub malloc : ℕ → Allocator → ℕ → Run (ℕ × Allocator)
malloc fuel a size =
    if not a.kernel_heap_initialized
    then panic
    else if a.is_kernel
    then on_kernel a (malloc_internal fuel a.kernel size)
    else on_user a (malloc_internal fuel a.user size)

pub malloc_kernel : ℕ → Allocator → ℕ → Run (ℕ × Allocator)
malloc_kernel fuel a size =
    if not a.kernel_heap_initialized
    then panic
    else on_kernel a (malloc_internal fuel a.kernel size)

abbrev kernel_freed : Allocator → Run Heap → Run Allocator
kernel_freed a (done h) = done (record a { kernel = h })
kernel_freed a panic = panic
kernel_freed a out_of_fuel = out_of_fuel

abbrev user_freed : Allocator → Run Heap → Run Allocator
user_freed a (done h) = done (record a { user = h })
user_freed a panic = panic
user_freed a out_of_fuel = out_of_fuel

pub free : ℕ → Allocator → ℕ → Run Allocator
free fuel a ptr =
    if not a.kernel_heap_initialized
    then panic
    else if a.is_kernel
    then kernel_freed a (free_internal fuel a.kernel ptr)
    else user_freed a (free_internal fuel a.user ptr)

pub free_kernel : ℕ → Allocator → ℕ → Run Allocator
free_kernel fuel a ptr =
    if not a.kernel_heap_initialized
    then panic
    else kernel_freed a (free_internal fuel a.kernel ptr)
