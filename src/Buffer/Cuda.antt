-- ===== src/Buffer/Cuda.antt =====
-- src/batch/include/common/buffer.h: CUDABuffer, over the base class of `Buffer`. A descriptor or
-- device of -1 is `none`.
use aws_efa_examples.Common.{
  ℕ, Bool, true, false, Option, none, some, List, [], ◌∷◌, ◌++◌, ◌==◌, if◌then◌else◌, Outcome, ok,
  throw, undefined, check_failed, assertion, ◌>>=◌,
}
use aws_efa_examples.Buffer.{
  Buffer, Release, close_mr, cuda_free, empty, align_up, usable, destroy, move_buffer, RegAnswer,
  bind,
}

pub record CudaBuffer : Type 0 where
  pub base : Buffer
  pub open base use *
  pub dmabuf_fd : Option ℕ
  pub device : Option ℕ

abbrev pub empty_cuda : CudaBuffer
empty_cuda = record { base = empty; dmabuf_fd = none; device = none }

-- What the CUDA calls of the constructor answer: a code that is not success, or the values that they
-- write.
pub data Malloc : Type 0 where
  allocated malloc_error : ℕ → Malloc

pub data Attributes : Type 0 where
  attributes : (is_device : Bool) (device : ℕ) → Attributes
  attributes_error : ℕ → Attributes

pub data RangeHandle : Type 0 where
  handle_fd : Option ℕ → RangeHandle
  range_error : ℕ → RangeHandle

pub record CudaAnswers : Type 0 where
  pub malloc : Malloc
  pub get_attributes : Attributes
  pub get_range : ℕ → ℕ → RangeHandle
  pub regattr : ℕ → ℕ → RegAnswer

abbrev pub with_raw : ℕ → Buffer
with_raw raw = record { raw = raw; start = 0; size = 0; mr = 0 }

-- CUDABuffer(domain, size, align) after cudaMalloc: the result, and the base class at the end of the
-- constructor or where it throws.
module _ (size align raw : ℕ) (answers : CudaAnswers) where
  register_body : (device fd : ℕ) → Outcome CudaBuffer × Buffer
  unfolding align_up usable bind
  register_body device fd =
      let start = align_up raw align in
      let n = usable raw size start in
      let b : Buffer = record { raw = raw; start = start; size = n; mr = 0 } in
      (
        bind (answers.regattr start n) >>= (λ mr.
            ok (record { base = record b { mr = mr }; dmabuf_fd = some fd; device = some device })),
        b,
      )

  range_body : (device : ℕ) → RangeHandle → Outcome CudaBuffer × Buffer
  unfolding register_body
  range_body device (range_error rc) =
      (throw (check_failed "cuMemGetHandleForAddressRange" rc), with_raw raw)
  range_body device (handle_fd none) = (throw (assertion "dmabuf_fd_ != -1"), with_raw raw)
  range_body device (handle_fd (some fd)) = register_body device fd

  attributes_body : Attributes → Outcome CudaBuffer × Buffer
  unfolding range_body align_up
  attributes_body (attributes_error rc) =
      (throw (check_failed "cudaPointerGetAttributes" rc), with_raw raw)
  attributes_body (attributes false device) =
      (throw (assertion "attrs.type == cudaMemoryTypeDevice"), with_raw raw)
  attributes_body (attributes true device) =
      range_body device (answers.get_range (align_up raw align) size)

abbrev malloc_body : (size align : ℕ) → CudaAnswers → Malloc → Outcome CudaBuffer × Buffer
malloc_body size align answers (malloc_error rc) = (throw (check_failed "cudaMalloc" rc), empty)
malloc_body size align answers (allocated raw) =
    attributes_body size align raw answers answers.get_attributes

-- The whole constructor. An exception destroys the base class, by ~Buffer.
unfoldable pub new_cuda : (size align : ℕ) → CudaAnswers → Outcome CudaBuffer × List Release
unfolding attributes_body destroy
new_cuda size align answers = unwind (malloc_body size align answers answers.malloc)
  where
    unwind : Outcome CudaBuffer × Buffer → Outcome CudaBuffer × List Release
    unwind (ok b, _) = (ok b, [])
    unwind (throw e, b) = (throw e, (destroy b).1)
    unwind (undefined, b) = (undefined, [])

-- The body of ~CUDABuffer, and the whole destruction, which ends with ~Buffer.
unfoldable pub cuda_destructor : CudaBuffer → CudaBuffer × List Release
cuda_destructor b = (
  empty_cuda,
  (if b.mr == 0 then [] else close_mr b.mr ∷ [])
      ++ (if b.raw == 0 then [] else cuda_free b.raw ∷ []),
)

unfoldable pub destroy_cuda : CudaBuffer → List Release
unfolding cuda_destructor destroy
destroy_cuda b =
    let (b', first) = cuda_destructor b in let (_, last) = destroy b'.base in first ++ last

-- CUDABuffer(CUDABuffer &&).
unfoldable pub move_cuda : CudaBuffer → CudaBuffer × CudaBuffer
unfolding move_buffer
move_cuda other =
    let (base, left) = move_buffer other.base in
    (
      record { base = base; dmabuf_fd = other.dmabuf_fd; device = other.device },
      record { base = left; dmabuf_fd = none; device = none },
    )

-- operator=(CUDABuffer &&): the target and the source afterwards.
unfoldable pub assign_cuda : CudaBuffer → CudaBuffer → CudaBuffer × CudaBuffer
assign_cuda this other = (other, empty_cuda)
