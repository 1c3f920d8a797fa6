-- ===== src/Net/Teardown.antt =====
-- A Net gives back what it has opened, wherever Open stopped.
use aws_efa_examples.Common.{
  ℕ, ◌≡◌, ◌≢◌, false, List, [], ◌++◌, contains, arith, contains-remove, add,
}
use aws_efa_examples.Loop.Io.{Io}
use aws_efa_examples.Net.{
  new_net, Answer, given, refused, OpenAnswers, open_net, closes, destroy_net,
}

-- What Open has made when it ends, in the order in which ~Net closes it.
abbrev pub made_cq : Answer → Answer → Answer → List ℕ
made_cq (given q) (given a) (given e) = closes q ++ closes a ++ closes e
made_cq (given q) (given a) (refused _) = closes q ++ closes a
made_cq (given q) (refused _) _ = closes q
made_cq (refused _) _ _ = []

abbrev pub made_by : OpenAnswers → List ℕ
made_by a = elim a.fabric [
  | refused _ ↦ []
  | given f ↦ elim a.domain [
    | refused _ ↦ closes f
    | given d ↦ made_cq a.cq a.av a.ep ++ closes d ++ closes f
  ]
]

-- Open on a new Net and then ~Net close each object that Open made, once, and no other: the
-- completion queue first and the fabric last, after a failure as after success.
pub open_net-destroy_net :
    (a : OpenAnswers) (io : Io) → (destroy_net (open_net a (new_net, io)).0).1 ≡ made_by a
unfolding open_net destroy_net
open_net-destroy_net a io = ground arith

-- After Open on a new Net and ~Net the completion queue that Open made is not polled, if it was not
-- polled before.
pub destroy_net-contains :
    (a : OpenAnswers) (io : Io) (q : ℕ)
    → a.cq ≡ given q
    → q ≢ 0
    → contains q io.selector.cqs ≡ false
    → contains q (destroy_net (open_net a (new_net, io)).0).0.1.selector.cqs ≡ false
unfolding open_net destroy_net
destroy_net-contains a io q e n fresh =
    ground
      (arith, contains-remove q q (add q (io.selector.cqs)), contains-remove q q (io.selector.cqs))
