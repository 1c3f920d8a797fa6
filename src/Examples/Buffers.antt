-- ===== src/Examples/Buffers.antt =====
-- Buffers at concrete addresses.
use aws_efa_examples.Common.{
  ◌≡◌, ◌≢◌, refl, true, none, some, [], ◌∷◌, ok, throw, check_failed, arith,
}
use aws_efa_examples.Buffer.{
  Buffer, RegAnswer, registered, refused, close_mr, free, cuda_free, new_host, destroy,
}
use aws_efa_examples.Buffer.Cuda.{
  CudaBuffer, CudaAnswers, allocated, attributes, handle_fd, new_cuda, destroy_cuda,
}
use aws_efa_examples.Buffer.Lifetime.{
  given_back, new_host-given_back, new_cuda-throws, new_cuda-destroy,
}

-- libfabric refuses the region.
new_host-given_back_example :
    given_back (λ b. (destroy b).1) (new_host 1 8129 128 1000 (λ start size. refused 22))
    ≡ free 1000 ∷ []
new_host-given_back_example = new_host-given_back 1 8129 128 1000 (λ start size. refused 22)

abbrev host : Buffer
host = record { raw = 1000; start = 1024; size = 8105; mr = 2 }

abbrev cuda_answers : RegAnswer → CudaAnswers
cuda_answers r = record {
  malloc = allocated 4096;
  get_attributes = attributes true 0;
  get_range = λ addr size. handle_fd (some 9);
  regattr = λ start size. r;
}

abbrev device_buffer : CudaBuffer
device_buffer = record {
  base = record { raw = 4096; start = 4096; size = 1024; mr = 3 };
  dmabuf_fd = some 9;
  device = some 0;
}

cuda_refused :
    (new_cuda 1024 128 (cuda_answers (refused 22))).0 ≡ throw (check_failed "fi_mr_regattr" 22)
unfolding new_cuda
cuda_refused = refl

new_cuda-throws_example : (new_cuda 1024 128 (cuda_answers (refused 22))).1 ≡ free 4096 ∷ []
new_cuda-throws_example =
    new_cuda-throws 1024 128 4096 (cuda_answers (refused 22)) (check_failed "fi_mr_regattr" 22) refl
      (omega arith) cuda_refused

cuda_made : (new_cuda 1024 128 (cuda_answers (registered 3))).0 ≡ ok device_buffer
unfolding new_cuda
cuda_made = refl

new_cuda-destroy_example :
    (destroy_cuda device_buffer ≡ close_mr 3 ∷ cuda_free 4096 ∷ [])
    × (device_buffer.dmabuf_fd ≢ none)
new_cuda-destroy_example =
    new_cuda-destroy 1024 128 4096 (cuda_answers (registered 3)) device_buffer refl (omega arith)
      cuda_made (omega arith)
