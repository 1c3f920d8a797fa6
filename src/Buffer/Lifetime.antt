-- ===== src/Buffer/Lifetime.antt =====
-- Who gives back what a buffer holds, over its constructors, moves and destructors.
use aws_efa_examples.Common.{
  ℕ, ◌≡◌, ◌≢◌, ◌||◌, List, [], ◌∷◌, ◌++◌, append-nil, ◌==◌, if◌then◌else◌, Outcome, ok, throw,
  undefined, Exception, arith, none,
}
use aws_efa_examples.Buffer.{
  Buffer, Release, close_mr, free, cuda_free, align_up, usable, destroy, move_buffer, RegAnswer,
  registered, refused, new_host,
}
use aws_efa_examples.Buffer.Cuda.{
  CudaBuffer, CudaAnswers, allocated, new_cuda, destroy_cuda, move_cuda,
}

-- What a HostBuffer's constructor acquires, as the calls that give it back.
abbrev pub region_of : RegAnswer → List Release
region_of (registered mr) = if mr == 0 then [] else close_mr mr ∷ []
region_of (refused rc) = []

abbrev pub host_acquired : (domain size align raw : ℕ) → (ℕ → ℕ → RegAnswer) → List Release
host_acquired domain size align raw regattr =
    if domain == 0 || raw == 0
    then []
    else region_of (regattr (align_up raw align) (usable raw size (align_up raw align)))
      ++ free raw ∷ []

-- What is given back in the life of an object: while its constructor throws, or by its destructor.
abbrev pub given_back : {A : Type 0} → (A → List Release) → Outcome A × List Release → List Release
given_back destructor (ok b, released) = released ++ destructor b
given_back destructor (throw e, released) = released
given_back destructor (undefined, released) = released

-- Whatever the libraries answer, all that a HostBuffer acquires is given back exactly once, the
-- region before the memory: by its destructor, or while the exception leaves its constructor.
pub new_host-given_back :
    (domain size align raw : ℕ) (regattr : ℕ → ℕ → RegAnswer)
    → given_back (λ b. (destroy b).1) (new_host domain size align raw regattr)
      ≡ host_acquired domain size align raw regattr
unfolding new_host
new_host-given_back domain size align raw regattr = ground arith

-- Moving a buffer and destroying both gives back what destroying the buffer would have.
pub move_buffer-destroy :
    (b : Buffer) → (destroy (move_buffer b).0).1 ++ (destroy (move_buffer b).1).1 ≡ (destroy b).1
unfolding move_buffer destroy
move_buffer-destroy b = rw append-nil

-- Moving a CUDABuffer and destroying both gives back what destroying the buffer would have.
pub move_cuda-destroy :
    (b : CudaBuffer) → destroy_cuda (move_cuda b).0 ++ destroy_cuda (move_cuda b).1 ≡ destroy_cuda b
unfolding move_cuda destroy_cuda
move_cuda-destroy b = rw append-nil

-- A CUDABuffer whose constructor throws after cudaMalloc gives its device memory to `free`.
pub new_cuda-throws :
    (size align raw : ℕ) (answers : CudaAnswers) (e : Exception)
    → answers.malloc ≡ allocated raw
    → raw ≢ 0
    → (new_cuda size align answers).0 ≡ throw e
    → (new_cuda size align answers).1 ≡ free raw ∷ []
unfolding new_cuda
new_cuda-throws size align raw answers e m r t = ground arith

-- A CUDABuffer that is built, with memory and a region that are not null, gives back its region and then, by cudaFree, its memory when it is destroyed,
-- and nothing else: the descriptor that it got for the range stays open.
pub new_cuda-destroy :
    (size align raw : ℕ) (answers : CudaAnswers) (b : CudaBuffer)
    → answers.malloc ≡ allocated raw
    → raw ≢ 0
    → (new_cuda size align answers).0 ≡ ok b
    → b.mr ≢ 0
    → (destroy_cuda b ≡ close_mr b.mr ∷ cuda_free raw ∷ []) × (b.dmabuf_fd ≢ none)
unfolding new_cuda destroy_cuda
new_cuda-destroy size align raw answers b m r t n = ground arith
