-- ===== src/Examples/Connections.antt =====
-- Connections that are made and closed.
use mathlib.Core.List.{mem-cons_self}
use aws_efa_examples.Common.{ℕ, ◌+◌, some, true, [], ◌∷◌, arith}
use aws_efa_examples.Buffer.{close_mr, registered}
use aws_efa_examples.Buffer.Cuda.{CudaAnswers, allocated, malloc_error, attributes, handle_fd}
use aws_efa_examples.Conn.Lifetime.{HostAnswers, ConnAnswers, destroy_conn}
use aws_efa_examples.Net.{Net, new_net}
use aws_efa_examples.Net.Closing.{object, buffer, IsClosedBefore, end_net, end_net-domain}
use aws_efa_examples.Examples.{idle}
use aws_efa_examples.Examples.Messages.{connection}

abbrev host : ℕ → HostAnswers
host raw = record { raw = raw; regattr = λ start size. registered (raw + 1) }

abbrev device : CudaAnswers
device = record {
  malloc = allocated 65536;
  get_attributes = attributes true 0;
  get_range = λ start size. handle_fd (some 9);
  regattr = λ start size. registered 3;
}

-- There is no memory for the write buffer.
abbrev no_memory : CudaAnswers
no_memory = record device { malloc = malloc_error 2 }

abbrev answers : ConnAnswers
answers = record { recv = host 1024; send = host 16384; read = device; write = no_memory }

-- A Net with the domain 2 and a connection at 500.
abbrev joined : Net
joined = record new_net { domain = 2; cq = 3; conns = (61 ∷ [], 500) ∷ [] }

end_net-domain_example :
    IsClosedBefore (object 2) (buffer (close_mr 3)) (end_net (λ c. connection) (joined, idle))
unfolding destroy_conn
end_net-domain_example =
    end_net-domain (λ c. connection) joined idle (61 ∷ []) 500 (close_mr 3) (omega arith)
      mem-cons_self mem-cons_self
