-- ===== src/Buffer.antt =====
-- src/batch/include/common/buffer.h: the classes Buffer, HostBuffer and CUDABuffer. What malloc,
-- CUDA and libfabric answer are arguments. An operation lists the resources that it gives back, in
-- order, and a constructor also what is given back while its exception leaves it.

pub mod Alignment
pub mod Cuda
pub mod Lifetime
use aws_efa_examples.Common.{
  ℕ, ◌+◌, ◌-◌, ◌%◌, ◌^◌, List, [], ◌∷◌, ◌++◌, ◌==◌, if◌then◌else◌, Outcome, ok, throw, undefined,
  check_failed, assertion, ◌>>=◌, bit_and,
}

-- uintptr_t and size_t have 64 bits.
abbrev pub word : ℕ
word = 2 ^ 64

abbrev pub k_align : ℕ
k_align = 128

abbrev pub k_buffer_size : ℕ
k_buffer_size = 8129

abbrev pub k_memory_region_size : ℕ
k_memory_region_size = 2 ^ 30

-- Buffer's data members; 0 is the null pointer.
pub record Buffer : Type 0 where
  pub raw : ℕ
  pub start : ℕ
  pub size : ℕ
  pub mr : ℕ

pub data Release : Type 0 where
  close_mr free cuda_free : ℕ → Release

abbrev pub empty : Buffer
empty = record { raw = 0; start = 0; size = 0; mr = 0 }

-- Buffer::Align, `(addr + align - 1) & ~(align - 1)` in 64 bits.
unfoldable pub align_up : (ptr align : ℕ) → ℕ
align_up ptr align =
    bit_and ((ptr + align + (word - 1)) % word) (word - 1 - (align + (word - 1)) % word)

-- `raw_ + size - data_`.
unfoldable pub usable : (raw size start : ℕ) → ℕ
usable raw size start = ((raw + size) % word + word - start) % word

-- ~Buffer.
unfoldable pub destroy : Buffer → Buffer × List Release
destroy b = (
  empty,
  (if b.mr == 0 then [] else close_mr b.mr ∷ []) ++ (if b.raw == 0 then [] else free b.raw ∷ []),
)

-- Buffer(Buffer &&): the new buffer, and what is left of the other.
unfoldable pub move_buffer : Buffer → Buffer × Buffer
move_buffer other = (other, empty)

-- operator=(Buffer &&): the target and the source afterwards.
unfoldable pub assign_buffer : Buffer → Buffer → Buffer × Buffer
assign_buffer this other = (other, empty)

-- The answer of fi_mr_regattr: a region, or a code that is not zero.
pub data RegAnswer : Type 0 where
  registered refused : ℕ → RegAnswer

-- The two functions Bind, up to the attributes that they pass: CHECK of the answer.
unfoldable pub bind : RegAnswer → Outcome ℕ
bind (registered mr) = ok mr
bind (refused rc) = throw (check_failed "fi_mr_regattr" rc)

-- HostBuffer(domain, size, align), where malloc returns `raw` and fi_mr_regattr answers by the
-- address and the size to register. On an exception the base class is destroyed.
module _ (domain size align raw : ℕ) (regattr : ℕ → ℕ → RegAnswer) where
  unfoldable pub host_body : Outcome Buffer × Buffer
  unfolding align_up usable bind
  host_body =
      let start = align_up raw align in
      let n = usable raw size start in
      if domain == 0
      then (throw (assertion "!!domain"), empty)
      else if raw == 0
      then (throw (assertion "raw_"), empty)
      else let b : Buffer = record { raw = raw; start = start; size = n; mr = 0 } in
        (bind (regattr start n) >>= (λ mr. ok (record b { mr = mr })), b)

-- What the constructor returns, and what it gives back: an exception destroys the base class as
-- far as it has got.
abbrev pub after_unwind : {A : Type 0} → Outcome A × Buffer → Outcome A × List Release
after_unwind (ok a, b) = (ok a, [])
after_unwind (throw e, b) = (throw e, (destroy b).1)
after_unwind (undefined, b) = (undefined, [])

unfoldable pub new_host :
    (domain size align raw : ℕ) → (ℕ → ℕ → RegAnswer) → Outcome Buffer × List Release
unfolding host_body destroy
new_host domain size align raw regattr = after_unwind (host_body domain size align raw regattr)
