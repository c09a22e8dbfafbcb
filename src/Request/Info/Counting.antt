-- ===== src/Request/Info/Counting.antt =====
-- src/rempi/rempi_request_mg.cpp: `rempi_reqmg_get_request_info` counts every request of the array once.
use re_mpi.Common.{
  ℕ, ◌+◌, ◌≡◌, ◌≢◌, ◌⊎◌, refl, ◌∙◌, ap, true, false, Option, inl, inr, none, some, List, [], ◌∷◌,
  ◌==◌, Bool-cases, if◌then◌else◌, All, length, Run, ok, ◌>>=◌, arith,
}
use re_mpi.Common.Maps.{find}
use re_mpi.Request.{Config, Requests, RecvArgs, SendArgs}
use re_mpi.Request.Register.{send_request, recv_request, null_request, ignr_request}
use re_mpi.Request.Info.{
  Counts, no_counts, kind_of, get_request_type, count_one, count_requests, get_recv_request_count,
  is_record_and_replay, select_set, get_request_info,
}

-- A request that the code accepts: in one of the two tables, MPI_REQUEST_NULL, or, in the lite build, one
-- that ReMPI does not know.
abbrev IsFineFor : Config → ℕ → Option SendArgs → Option RecvArgs → Type 0
IsFineFor c r (some a) (some b) = ⊥
IsFineFor c r (some a) none = Unit
IsFineFor c r none (some b) = Unit
IsFineFor c r none none = (r ≡ c.null_request) ⊎ ((r ≢ 0) × (c.lite ≡ true))

abbrev pub IsFine : Config → Requests → ℕ → Type 0
IsFine c s r = IsFineFor c r (find r s.send_args) (find r s.recv_args)

-- How many entries of `request_info` are of a kind.
unfoldable pub count_kind : (kind : ℕ) → List ℕ → ℕ
count_kind kind [] = 0
count_kind kind (k ∷ ks) = (if k == kind then 1 else 0) + count_kind kind ks

-- `request_info` has each request's type.
abbrev pub HasTypes : Config → Requests → List ℕ → List ℕ → Type 0
HasTypes c s [] [] = Unit
HasTypes c s (r ∷ rs) (k ∷ ks) = (get_request_type c r s ≡ ok k) × HasTypes c s rs ks
HasTypes c s _ _ = ⊥

pub record Counted (c : Config) (s : Requests) (rs : List ℕ) (n : Counts) : Type 0 where
  pub sends : n.sendcount ≡ count_kind send_request n.request_info
  pub receives : n.recvcount ≡ count_kind recv_request n.request_info
  pub nulls : n.nullcount ≡ count_kind null_request n.request_info
  pub total : length rs ≡ n.sendcount + n.recvcount + n.nullcount + n.ignore
  pub posted : n.recvcount ≡ get_recv_request_count rs s
  pub types : HasTypes c s rs n.request_info

record CountedOk (c : Config) (s : Requests) (rs : List ℕ) (r : Run Counts) : Type 0 where
  counts : Counts
  returns : r ≡ ok counts
  counted : Counted c s rs counts

-- What one request adds, and that it is of the type it is counted as.
unfoldable tally : (kind : ℕ) → Counts → Counts
tally kind n = record {
  sendcount = (if kind == send_request then 1 else 0) + n.sendcount;
  recvcount = (if kind == recv_request then 1 else 0) + n.recvcount;
  nullcount = (if kind == null_request then 1 else 0) + n.nullcount;
  ignore = (if kind == ignr_request then 1 else 0) + n.ignore;
  request_info = kind ∷ n.request_info;
}

-- How often a request is found in the table of receives.
abbrev pub entries : Option RecvArgs → ℕ
entries none = 0
entries (some a) = 1

record Tallied (c : Config) (r : ℕ) (a : Option SendArgs) (b : Option RecvArgs) (n : Counts)
    : Type 0 where
  kind : ℕ
  typed : kind_of c r a b ≡ ok kind
  counts : count_one c r a b n ≡ ok (tally kind n)
  single :
      (if kind == send_request then 1 else 0)
        + (if kind == recv_request then 1 else 0)
        + (if kind == null_request then 1 else 0)
        + (if kind == ignr_request then 1 else 0)
      ≡ 1
  posted : (if kind == recv_request then 1 else 0) ≡ entries b

count_one-Tallied :
    (c : Config) (r : ℕ) (a : Option SendArgs) (b : Option RecvArgs) (n : Counts)
    → IsFineFor c r a b
    → Tallied c r a b n
unfolding kind_of count_one tally
count_one-Tallied c r (some a) (some b) n h = absurd h
count_one-Tallied c r (some a) none n h = record {
  kind = send_request;
  typed = refl;
  counts = ground arith;
  single = refl;
  posted = refl;
}
count_one-Tallied c r none (some b) n h = record {
  kind = recv_request;
  typed = refl;
  counts = ground arith;
  single = refl;
  posted = refl;
}
count_one-Tallied c r none none n (inl null) =
    let is_null : (r == c.null_request) ≡ true = ground arith in
    record {
      kind = null_request;
      typed = rw is_null refl;
      counts = rw is_null (ground arith);
      single = refl;
      posted = refl;
    }
count_one-Tallied c r none none n (inr (live, lite)) = elim (Bool-cases (r == c.null_request)) [
  | inl is_null ↦ record {
    kind = null_request;
    typed = rw is_null refl;
    counts = rw is_null (ground arith);
    single = refl;
    posted = refl;
  }
  | inr other ↦
      let is_live : (r == 0) ≡ false = ground arith in
      record {
        kind = ignr_request;
        typed = rw (other, is_live) refl;
        counts = rw (other, is_live, lite) (ground arith);
        single = refl;
        posted = refl;
      }
]

pub get_recv_request_count-entries :
    (r : ℕ) (rs : List ℕ) (s : Requests)
    → get_recv_request_count (r ∷ rs) s ≡ entries (find r s.recv_args) + get_recv_request_count rs s
unfolding get_recv_request_count
get_recv_request_count-entries r rs s = ground arith

Counted-tally :
    (c : Config) (s : Requests) (r : ℕ) (rs : List ℕ) (n : Counts)
    → Counted c s rs n
    → (t : Tallied c r (find r s.send_args) (find r s.recv_args) n)
    → Counted c s (r ∷ rs) (tally t.kind n)
unfolding count_kind tally get_request_type
Counted-tally c s r rs n k t = record {
  sends = ap (λ m. (if t.kind == send_request then 1 else 0) + m) k.sends;
  receives = ap (λ m. (if t.kind == recv_request then 1 else 0) + m) k.receives;
  nulls = ap (λ m. (if t.kind == null_request then 1 else 0) + m) k.nulls;
  total = omega (arith, k.total, t.single);
  posted = omega (arith, k.posted, t.posted, get_recv_request_count-entries r rs s);
  types = (t.typed, k.types);
}

-- Counting an array of requests that the code accepts.
count_requests-Counted :
    (c : Config) (s : Requests) (rs : List ℕ)
    → All (IsFine c s) rs
    → CountedOk c s rs (count_requests c rs s)
unfolding count_requests no_counts count_kind get_recv_request_count
count_requests-Counted c s [] h = record {
  counts = no_counts;
  returns = refl;
  counted = record {
    sends = refl;
    receives = refl;
    nulls = refl;
    total = refl;
    posted = refl;
    types = tt;
  };
}
count_requests-Counted c s (r ∷ rs) h =
    let k = count_requests-Counted c s rs h.1 in
    let t = count_one-Tallied c r (find r s.send_args) (find r s.recv_args) k.counts h.0 in
    record {
      counts = tally t.kind k.counts;
      returns =
          ap (λ q. q >>= count_one c r (find r s.send_args) (find r s.recv_args)) k.returns
          ∙ t.counts;
      counted = Counted-tally c s r rs k.counts k.counted t;
    }

-- What `rempi_reqmg_get_request_info` comes down to.
pub record Informed (c : Config) (call_id mpi_call_id : ℕ) (rs : List ℕ) (s : Requests)
    : Type 0 where
  pub counts : Counts
  pub counted : Counted c s rs counts
  pub goes_on :
      get_request_info c call_id mpi_call_id rs s
      ≡ (is_record_and_replay c counts >>= select_set c call_id mpi_call_id rs counts s)

-- For an array of requests that the code accepts: neither the counting nor the assertion on the sum of
-- the counts aborts. `request_info` has each request's type, the counts are those of the types in it,
-- every request is counted exactly once, and the receives are those that
-- `rempi_reqmg_get_recv_request_count` finds; the matching set is chosen with these counts.
pub get_request_info-Informed :
    (c : Config) (call_id mpi_call_id : ℕ) (rs : List ℕ) (s : Requests)
    → All (IsFine c s) rs
    → Informed c call_id mpi_call_id rs s
unfolding get_request_info
get_request_info-Informed c call_id mpi_call_id rs s h =
    let k = count_requests-Counted c s rs h in
    let n = k.counts in
    let sum : (length rs == n.sendcount + n.recvcount + n.nullcount + n.ignore) ≡ true =
      ground (arith, k.counted.total) in
    record { counts = n; counted = k.counted; goes_on = rw (k.returns, sum) refl }
