-- ===== src/Kline/Rest/Client/Fetch.antt =====
-- What FetchKline returns.
use fidorix.Base.{
  ◌&&◌, ◌∙◌, eqb_ℤ, eqb_ℤ_iff, ◌==◌, ltb_ℤ, subst, ◌-◌, ◌≤◌, ◌≡◌, ◌≢◌, refl, ap, sym, inl, inr, ◌⊎◌,
  true, Bool-cases, List, [], ◌∷◌, ◌++◌, map, arith, length, take, take-append-drop, length-drop, ℤ,
  pos, pos_part, ◌≤ℤ◌, Text, Result, ok, err, ◌>>=◌,
}
use fidorix.Kline.Candle.{Candle}
use fidorix.Kline.Rest.Client.{
  KlineData, Response, Answer, Query, query_for, not_created, not_done, answered, FetchError,
  mismatched_lengths, same_lengths, rows, to_candles, limited, payload_candles, answer_candles,
  fetch_kline,
}

-- Each array of the response is a column of the candles, in order.
pub record IsRead (d : KlineData) (cs : List Candle) : Type 0 where
  pub t : map (λ (c : Candle). c.t) cs ≡ d.time
  pub o : map (λ (c : Candle). c.o) cs ≡ d.open_price
  pub h : map (λ (c : Candle). c.h) cs ≡ d.high
  pub l : map (λ (c : Candle). c.l) cs ≡ d.low
  pub c : map (λ (c : Candle). c.c) cs ≡ d.close_price
  pub v : map (λ (c : Candle). c.v) cs ≡ d.vol
  pub a : map (λ (c : Candle). c.a) cs ≡ d.amount

module _ {A : Type 0} where
  cons-eq : {a b : A} {s t : List A} → a ≡ b → s ≡ t → a ∷ s ≡ b ∷ t
  cons-eq p q = cc

rows-IsRead :
    (ts : List ℤ) (os hs ls cs vs amounts : List Text)
    → length os ≡ length ts
    → length hs ≡ length ts
    → length ls ≡ length ts
    → length cs ≡ length ts
    → length vs ≡ length ts
    → length amounts ≡ length ts
    → IsRead
        (record {
          time = ts;
          open_price = os;
          close_price = cs;
          high = hs;
          low = ls;
          vol = vs;
          amount = amounts;
        })
        (rows ts os hs ls cs vs amounts)
unfolding rows
rows-IsRead [] [] [] [] [] [] [] e1 e2 e3 e4 e5 e6 = record {
  t = refl;
  o = refl;
  h = refl;
  l = refl;
  c = refl;
  v = refl;
  a = refl;
}
rows-IsRead (t ∷ ts) (o ∷ os) (h ∷ hs) (l ∷ ls) (c ∷ cs) (v ∷ vs) (a ∷ amounts) e1 e2 e3 e4 e5 e6 =
    let r =
      rows-IsRead ts os hs ls cs vs amounts (omega arith) (omega arith) (omega arith) (omega arith)
        (omega arith) (omega arith) in
    record {
      t = ap (λ s. t ∷ s) r.t;
      o = ap (λ s. o ∷ s) r.o;
      h = ap (λ s. h ∷ s) r.h;
      l = ap (λ s. l ∷ s) r.l;
      c = ap (λ s. c ∷ s) r.c;
      v = ap (λ s. v ∷ s) r.v;
      a = ap (λ s. a ∷ s) r.a;
    }
rows-IsRead _ _ _ _ _ _ _ e1 e2 e3 e4 e5 e6 = absurd (omega arith)

same_lengths-IsRead :
    (d : KlineData)
    → same_lengths d ≡ true
    → IsRead d (rows d.time d.open_price d.high d.low d.close_price d.vol d.amount)
same_lengths-IsRead d same =
    rows-IsRead d.time d.open_price d.high d.low d.close_price d.vol d.amount (ground arith)
      (ground arith) (ground arith) (ground arith) (ground arith) (ground arith)

-- Without times there are no candles; otherwise either all arrays have one length, and are the
-- columns of the candles, or the conversion fails.
pub to_candles_result :
    (d : KlineData)
    → ((d.time ≡ []) × (to_candles d ≡ ok []))
      ⊎ (((cs : List Candle) × (to_candles d ≡ ok cs) × IsRead d cs)
          ⊎ (to_candles d ≡ err mismatched_lengths))
unfolding to_candles
to_candles_result d = elim (Bool-cases (length d.time == 0)) [
  | inl e ↦ inl (nil_of_length d.time (ground arith), rw e)
  | inr e ↦ elim (Bool-cases (same_lengths d)) [
    | inl same ↦ inr (inl (_, rw (e, same), same_lengths-IsRead d same))
    | inr differ ↦ inr (inr (rw (e, differ)))
  ]
]
  where
    nil_of_length : (ts : List ℤ) → length ts ≡ 0 → ts ≡ []
    nil_of_length [] e = refl
    nil_of_length (t ∷ ts) e = absurd (omega arith)

-- The candles that FetchKline returns are the last ones of an answer, and `limit` at most; without a
-- positive limit they are all of them.
pub record IsFetched (limit : ℤ) (d : KlineData) (cs : List Candle) : Type 0 where
  pub older : List Candle
  pub converted : to_candles d ≡ ok (older ++ cs)
  pub short : pos 1 ≤ℤ limit → length cs ≤ pos_part limit
  pub full : older ≢ [] → length cs ≡ pos_part limit
  pub whole : limit ≤ℤ pos 0 → older ≡ []

limited-IsFetched :
    (limit : ℤ) (d : KlineData) (cs : List Candle)
    → to_candles d ≡ ok cs
    → IsFetched limit d (limited limit cs)
limited-IsFetched limit d cs h =
    elim (Bool-cases (ltb_ℤ (pos 0) limit && ltb_ℤ limit (pos (length cs)))) [
      | inl e ↦ rw e (record {
        older = take (length cs - pos_part limit) cs;
        converted = h ∙ ap ok (sym (take-append-drop (length cs - pos_part limit) cs));
        short = λ one. ground (arith, length-drop (length cs - pos_part limit) cs);
        full = λ some_older. ground (arith, length-drop (length cs - pos_part limit) cs);
        whole = λ none_asked. absurd (ground arith);
      })
      | inr e ↦ rw e (record {
        older = [];
        converted = h;
        short = λ one. ground arith;
        full = λ ne. absurd (ne refl);
        whole = λ none_asked. refl;
      })
    ]

-- FetchKline returns candles only of an answer of status 200 that says success and whose arrays
-- are converted: all its candles if the limit is not positive or lets them all through, and its
-- last ones, as many as the limit, elsewhere.
pub fetch_kline_result :
    (server : Text → Query → Answer) (symbol interval : Text) (start end limit : ℤ)
    (cs : List Candle)
    → fetch_kline server symbol interval start end limit ≡ ok cs
    → (body : Text) × (r : Response) × (server symbol (query_for interval start end)
        ≡ answered (pos 200) body (ok r))
      × (r.success ≡ true)
      × IsFetched limit r.kline_data cs
unfolding fetch_kline
fetch_kline_result server symbol interval start end limit cs h =
    of_answer (server symbol (query_for interval start end)) refl h
  where
    of_candles :
        (r : Response) (c : Result FetchError (List Candle))
        → to_candles r.kline_data ≡ c
        → (c >>= λ candles. ok (limited limit candles)) ≡ ok cs
        → IsFetched limit r.kline_data cs
    of_candles r (ok candles) e h =
        subst (IsFetched limit r.kline_data) (ground arith)
          (limited-IsFetched limit r.kline_data candles e)
    of_candles r (err x) e h = cc

    of_response :
        (r : Response)
        → payload_candles limit r ≡ ok cs
        → (r.success ≡ true) × IsFetched limit r.kline_data cs
    of_response r h = elim (Bool-cases r.success) [
      | inl e ↦ (e, of_candles r (to_candles r.kline_data) refl (simp e at h))
      | inr e ↦ cc
    ]

    refused : {x : FetchError} → err x ≡ ok cs → ⊥
    refused h = cc

    of_answer :
        (a : Answer)
        → server symbol (query_for interval start end) ≡ a
        → answer_candles limit a ≡ ok cs
        → (body : Text) × (r : Response) × (server symbol (query_for interval start end)
            ≡ answered (pos 200) body (ok r))
          × (r.success ≡ true)
          × IsFetched limit r.kline_data cs
    of_answer (not_created x) e h = cc
    of_answer (not_done x) e h = cc
    of_answer (answered status body (err x)) e h = ground arith
    of_answer (answered status body (ok r)) e h = elim (Bool-cases (eqb_ℤ status (pos 200))) [
      | inl good ↦
          let (done, fetched) = of_response r (rw good at h) in
          (
            body,
            r,
            e ∙ ap (λ z. answered z body (ok r)) ((eqb_ℤ_iff status (pos 200)).0 good),
            done,
            fetched,
          )
      | inr bad ↦ absurd (refused (rw bad at h))
    ]
