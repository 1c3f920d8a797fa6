-- ===== src/Conn/Lifetime.antt =====
-- src/batch/include/common/conn.h: the constructor of Conn and its destruction, member by member.
use aws_efa_examples.Common.{
  ℕ, ◌≡◌, ◌≢◌, refl, List, [], ◌++◌, Outcome, ok, throw, undefined, Exception, arith, append_assoc,
}
use aws_efa_examples.Buffer.{
  Buffer, Release, destroy, RegAnswer, new_host, k_buffer_size, k_memory_region_size, k_align,
}
use aws_efa_examples.Buffer.Cuda.{CudaBuffer, CudaAnswers, new_cuda, destroy_cuda}
use aws_efa_examples.Buffer.Lifetime.{given_back}
use aws_efa_examples.Conn.{Conn}

-- What malloc and libfabric answer for a HostBuffer.
pub record HostAnswers : Type 0 where
  pub raw : ℕ
  pub regattr : ℕ → ℕ → RegAnswer

pub record ConnAnswers : Type 0 where
  pub recv : HostAnswers
  pub send : HostAnswers
  pub read : CudaAnswers
  pub write : CudaAnswers

-- A member is constructed, and what comes after it: if that throws, the member is destroyed.
abbrev pub member :
    {A B : Type 0}
    → (A → List Release)
    → Outcome A × List Release
    → (A → Outcome B × List Release)
    → Outcome B × List Release
member {B = B} destructor (ok a, released) rest = after (rest a)
  where
    after : Outcome B × List Release → Outcome B × List Release
    after (ok b, more) = (ok b, released ++ more)
    after (throw e, more) = (throw e, (released ++ more) ++ destructor a)
    after (undefined, more) = (undefined, released ++ more)
member destructor (throw e, released) rest = (throw e, released)
member destructor (undefined, released) rest = (undefined, released)

abbrev pub destroy_host : Buffer → List Release
destroy_host b = (destroy b).1

abbrev pub host_member : (domain : ℕ) → HostAnswers → Outcome Buffer × List Release
host_member domain a = new_host domain k_buffer_size k_align (a.raw) (a.regattr)

abbrev pub cuda_member : CudaAnswers → Outcome CudaBuffer × List Release
cuda_member a = new_cuda k_memory_region_size k_align a

-- The member initializers, in the order of the declarations, by what each of them does.
abbrev pub members :
    (ep remote : ℕ) (recv send : Outcome Buffer × List Release)
    (read write : Outcome CudaBuffer × List Release)
    → Outcome Conn × List Release
members ep remote recv send read write = member destroy_host recv λ recv.
    member destroy_host send λ send. member destroy_cuda read λ read.
      member destroy_cuda write λ write. (
        ok (record {
          ep = ep;
          remote = remote;
          recv_buffer = recv;
          send_buffer = send;
          read_buffer = read;
          write_buffer = write;
        }),
        [],
      )

-- Conn(ep, domain, remote).
unfoldable pub new_conn : (ep domain remote : ℕ) → ConnAnswers → Outcome Conn × List Release
unfolding new_host new_cuda destroy destroy_cuda
new_conn ep domain remote a =
    members ep remote (host_member domain (a.recv)) (host_member domain (a.send))
      (cuda_member (a.read)) (cuda_member (a.write))

-- The destruction of a Conn, in the opposite order.
unfoldable pub destroy_conn : Conn → List Release
unfolding destroy destroy_cuda
destroy_conn c =
    destroy_cuda (c.write_buffer)
    ++ destroy_cuda (c.read_buffer)
    ++ destroy_host (c.send_buffer)
    ++ destroy_host (c.recv_buffer)

-- What a member that is constructed after another gives back: nothing, if the other was not constructed.
abbrev pub if_made : {A : Type 0} → Outcome A × List Release → List Release → List Release
if_made (ok a, _) later = later
if_made (throw e, _) later = []
if_made (undefined, _) later = []

-- Each member alone, the last one first.
abbrev pub lives :
    (recv send : Outcome Buffer × List Release) (read write : Outcome CudaBuffer × List Release)
    → List Release
lives recv send read write =
    if_made recv (
      if_made send (if_made read (given_back destroy_cuda write) ++ given_back destroy_cuda read)
      ++ given_back destroy_host send)
    ++ given_back destroy_host recv

-- A constructor returns and has given back nothing, or throws.
data IsBuilt {A : Type 0} : Outcome A × List Release → Type 0 where
  built : (a : A) → IsBuilt (ok a, [])
  failed : (e : Exception) (released : List Release) → IsBuilt (throw e, released)

IsBuilt_lem :
    {A : Type 0} (r : Outcome A × List Release)
    → r.0 ≢ undefined
    → ((a : A) → r.0 ≡ ok a → r.1 ≡ [])
    → IsBuilt r
IsBuilt_lem (ok a, released) d n = rw (n a refl) (built a)
IsBuilt_lem (throw e, released) d n = failed e released
IsBuilt_lem (undefined, released) d n = absurd (d refl)

host_member-IsBuilt : (domain : ℕ) (a : HostAnswers) → IsBuilt (host_member domain a)
unfolding new_host
host_member-IsBuilt domain a =
    IsBuilt_lem (host_member domain a) (λ u. ground arith) (λ b e. ground arith)

cuda_member-IsBuilt : (a : CudaAnswers) → IsBuilt (cuda_member a)
unfolding new_cuda
cuda_member-IsBuilt a = IsBuilt_lem (cuda_member a) (λ u. ground arith) (λ b e. ground arith)

members-lives :
    (ep remote : ℕ) (recv send : Outcome Buffer × List Release)
    (read write : Outcome CudaBuffer × List Release)
    → IsBuilt recv
    → IsBuilt send
    → IsBuilt read
    → IsBuilt write
    → given_back destroy_conn (members ep remote recv send read write) ≡ lives recv send read write
unfolding destroy_conn
members-lives ep remote _ _ _ _ (failed e l) s r w = refl
members-lives ep remote _ _ _ _ (built a) (failed e l) r w = refl
members-lives ep remote _ _ _ _ (built a) (built b) (failed e l) w = refl
members-lives ep remote _ _ _ _ (built a) (built b) (built c) (failed e l) = refl
members-lives ep remote _ _ _ _ (built a) (built b) (built c) (built d) = simp append_assoc refl

-- Whatever malloc, CUDA and libfabric answer, a Conn gives back in its life what its buffers would give
-- back alone, in the opposite order of their construction, and nothing of a buffer that was not begun
-- because one before it threw: by its destruction, or while the exception leaves its constructor.
pub new_conn-lives :
    (ep domain remote : ℕ) (a : ConnAnswers)
    → given_back destroy_conn (new_conn ep domain remote a)
      ≡ lives
          (host_member domain (a.recv))
          (host_member domain (a.send))
          (cuda_member (a.read))
          (cuda_member (a.write))
unfolding new_conn
new_conn-lives ep domain remote a =
    members-lives ep remote (host_member domain (a.recv)) (host_member domain (a.send))
      (cuda_member (a.read)) (cuda_member (a.write)) (host_member-IsBuilt domain (a.recv))
      (host_member-IsBuilt domain (a.send)) (cuda_member-IsBuilt (a.read))
      (cuda_member-IsBuilt (a.write))
