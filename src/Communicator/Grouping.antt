-- ===== src/Communicator/Grouping.antt =====
-- How `dv_get_part` of MPIActorCommunicator.cpp divides its requests in local ones and those that
-- are sent to the owners.
use activebsp.Base.{
  ℕ, ◌⊎◌, inl, inr, List, [], ◌∷◌, ◌++◌, All, Any, All-append, All-append_left, All-append_right,
  Any-append, Any-append_left, Any-append_right, ◌==◌, Bool-cases, int_lt,
}
use activebsp.Communicator.{Request, local_requests, push_request, remote_requests, posted}

module _ (P : Request → Type 0) where
  push_request-All :
      (r : Request) (reqs : List (ℕ × List Request))
      → P r
      → All P (posted reqs)
      → All P (posted (push_request r reqs))
  unfolding push_request
  push_request-All r [] h k = (h, tt)
  push_request-All r ((pid, rs) ∷ reqs) h k =
      let mine = All-append_left P rs (posted reqs) k in
      let rest = All-append_right P rs (posted reqs) k in
      elim (Bool-cases (r.owner == pid)) [
        | inl e ↦ rw e (
            All-append P (rs ++ (r ∷ [])) (posted reqs) (All-append P rs (r ∷ []) mine (h, tt))
              rest)
        | inr e ↦ elim (Bool-cases (int_lt r.owner pid)) [
          | inl f ↦ rw (e, f) (h, k)
          | inr f ↦
              rw (e, f)
                (All-append P rs (posted (push_request r reqs)) mine
                  (push_request-All r reqs h rest))
        ]
      ]

  push_request-Any :
      (r : Request) (reqs : List (ℕ × List Request))
      → P r ⊎ Any P (posted reqs)
      → Any P (posted (push_request r reqs))
  unfolding push_request
  push_request-Any r [] h = h
  push_request-Any r ((pid, rs) ∷ reqs) h = elim (Bool-cases (r.owner == pid)) [
    | inl e ↦ rw e (elim h [
      | inl new ↦
          Any-append_left P (rs ++ (r ∷ [])) (posted reqs)
            (Any-append_right P rs (r ∷ []) (inl new))
      | inr old ↦ elim (Any-append P rs (posted reqs) old) [
        | inl here ↦
            Any-append_left P (rs ++ (r ∷ [])) (posted reqs) (Any-append_left P rs (r ∷ []) here)
        | inr there ↦ Any-append_right P (rs ++ (r ∷ [])) (posted reqs) there
      ]
    ])
    | inr e ↦ elim (Bool-cases (int_lt r.owner pid)) [
      | inl f ↦ rw (e, f) h
      | inr f ↦ rw (e, f) (later (push_request-Any r reqs))
    ]
  ]
    where
      later :
          (P r ⊎ Any P (posted reqs) → Any P (posted (push_request r reqs)))
          → Any P (rs ++ posted (push_request r reqs))
      later ih = elim h [
        | inl new ↦ Any-append_right P rs (posted (push_request r reqs)) (ih (inl new))
        | inr old ↦ elim (Any-append P rs (posted reqs) old) [
          | inl here ↦ Any-append_left P rs (posted (push_request r reqs)) here
          | inr there ↦ Any-append_right P rs (posted (push_request r reqs)) (ih (inr there))
        ]
      ]

  pub local_requests-All : (pid : ℕ) (rs : List Request) → All P rs → All P (local_requests pid rs)
  unfolding local_requests
  local_requests-All pid [] h = tt
  local_requests-All pid (r ∷ rs) (h, hs) = elim (Bool-cases (r.owner == pid)) [
    | inl e ↦ rw e (h, local_requests-All pid rs hs)
    | inr e ↦ rw e (local_requests-All pid rs hs)
  ]

  pub remote_requests-All :
      (pid : ℕ) (rs : List Request) (reqs : List (ℕ × List Request))
      → All P rs
      → All P (posted reqs)
      → All P (posted (remote_requests pid rs reqs))
  unfolding remote_requests
  remote_requests-All pid [] reqs h k = k
  remote_requests-All pid (r ∷ rs) reqs (h, hs) k = elim (Bool-cases (r.owner == pid)) [
    | inl e ↦ rw e (remote_requests-All pid rs reqs hs k)
    | inr e ↦
        rw e (remote_requests-All pid rs (push_request r reqs) hs (push_request-All r reqs h k))
  ]

  pub remote_requests_keep :
      (pid : ℕ) (rs : List Request) (reqs : List (ℕ × List Request))
      → Any P (posted reqs)
      → Any P (posted (remote_requests pid rs reqs))
  unfolding remote_requests
  remote_requests_keep pid [] reqs k = k
  remote_requests_keep pid (r ∷ rs) reqs k = elim (Bool-cases (r.owner == pid)) [
    | inl e ↦ rw e (remote_requests_keep pid rs reqs k)
    | inr e ↦
        rw e (remote_requests_keep pid rs (push_request r reqs) (push_request-Any r reqs (inr k)))
  ]

  -- Each request is a local one or is sent to its owner.
  pub requests_divided :
      (pid : ℕ) (rs : List Request) (reqs : List (ℕ × List Request))
      → Any P rs
      → Any P (local_requests pid rs) ⊎ Any P (posted (remote_requests pid rs reqs))
  unfolding local_requests remote_requests
  requests_divided pid [] reqs h = absurd h
  requests_divided pid (r ∷ rs) reqs h = elim (Bool-cases (r.owner == pid)) [
    | inl e ↦ rw e (elim h [
      | inl now ↦ inl (inl now)
      | inr later ↦ elim (requests_divided pid rs reqs later) [
        | inl here ↦ inl (inr here)
        | inr there ↦ inr there
      ]
    ])
    | inr e ↦ rw e (elim h [
      | inl now ↦
          inr
            (remote_requests_keep pid rs (push_request r reqs) (push_request-Any r reqs (inl now)))
      | inr later ↦ requests_divided pid rs (push_request r reqs) later
    ])
  ]
