-- ===== src/Orderbook/Redis/Exclusive.antt =====
-- At most one write to Redis runs, and a key has the snapshot of its own symbol.
use fidorix.Base.{
  one_if, one_if-le, suc, ◌+◌, ◌≤◌, ◌≡◌, refl, sym, ap, ◌∙◌, subst, inl, inr, ◌⊎◌, Bool, true,
  false, Bool-cases, Option, some, Option-cases, List, ◌∷◌, ◌++◌, arith, length, length-append,
  Text, text_eq, text_eq_iff, Assoc, lookup, lookup-insert, Reply, replied, done, refused,
  done_unanswered, insert,
}
use fidorix.Orderbook.Redis.{
  setting, leaving, book_key, Encoding, set_order_book, Stage, RedisWriter, new_redis_writer, Step,
  Run,
}

module _ {S B : Type 0} (json : Encoding S B) (old : Assoc B) where
  -- The key of a symbol has what it had, or the payload of a snapshot of the symbol.
  abbrev pub IsBook : Text → Option B → Type 0
  IsBook symbol o =
      (o ≡ lookup (book_key symbol) old)
      ⊎ ((s : S) × (json.symbol s ≡ symbol)
          × ((payload : B) × (json.encode s ≡ some payload) × (o ≡ some payload)))

  record IsSound (w : RedisWriter S B) : Type 0 where
    exclusive : length w.live ≡ one_if w.in_flight
    books : (symbol : Text) → IsBook symbol (lookup (book_key symbol) w.values)

  book_key_inj : (x y : Text) → book_key x ≡ book_key y → x ≡ y
  book_key_inj x y e = cc

  insert-IsBook :
      (s : S) (payload : B) (values : Assoc B) (symbol : Text)
      → json.encode s ≡ some payload
      → IsBook symbol (lookup (book_key symbol) values)
      → IsBook symbol (lookup (book_key symbol) (insert (book_key (json.symbol s)) payload values))
  insert-IsBook s payload values symbol e h =
      subst (IsBook symbol)
        (sym (lookup-insert (book_key (json.symbol s)) (book_key symbol) payload values))
        (elim (Bool-cases (text_eq (book_key (json.symbol s)) (book_key symbol))) [
          | inr n ↦ rw n h
          | inl y ↦ rw y (inr (s, book_key_inj _ _ ((text_eq_iff _ _).0 y), (payload, e, refl)))
        ])

  set-IsBook :
      (s : S) (ready : Bool) (reply : Reply) (values : Assoc B) (symbol : Text)
      → IsBook symbol (lookup (book_key symbol) values)
      → IsBook symbol (lookup (book_key symbol) (set_order_book json ready reply s values).0)
  unfolding set_order_book
  set-IsBook s false reply values symbol h = h
  set-IsBook s true reply values symbol h = elim (Option-cases (json.encode s)) [
    | inl e ↦ rw e h
    | inr (payload, e) ↦ rw e (of_reply reply payload e)
  ]
    where
      of_reply :
          (reply : Reply) (payload : B)
          → json.encode s ≡ some payload
          → IsBook symbol (
              lookup
                (book_key symbol)
                (replied reply values (insert (book_key (json.symbol s)) payload values)).0)
      of_reply done payload e = insert-IsBook s payload values symbol e h
      of_reply refused payload e = h
      of_reply done_unanswered payload e = insert-IsBook s payload values symbol e h

  lengths :
      (w : RedisWriter S B) (st : Stage S) (before after : List (Stage S))
      → w.live ≡ before ++ st ∷ after
      → length w.live ≡ length before + suc (length after)
  lengths w st before after at = ap length at ∙ length-append before (st ∷ after)

  Step-IsSound : (w v : RedisWriter S B) → Step json w v → IsSound w → IsSound v
  Step-IsSound w _ (Step.enter s free) h = record {
    exclusive = omega (arith, h.exclusive, ap one_if free);
    books = h.books;
  }
  Step-IsSound w _ (Step.refuse busy) h = h
  Step-IsSound w _ (Step.set s ready reply before after at) h = record {
    exclusive = omega (
      arith,
      h.exclusive,
      lengths w (setting s) before after at,
      length-append before (leaving ∷ after),
    );
    books = λ symbol. set-IsBook s ready reply w.values symbol (h.books symbol);
  }
  Step-IsSound w _ (Step.leave before after at) h = record {
    exclusive = omega (
      arith,
      h.exclusive,
      lengths w leaving before after at,
      length-append before after,
      one_if-le w.in_flight,
    );
    books = h.books;
  }

  Run-IsSound : {w v : RedisWriter S B} → Run json w v → IsSound w → IsSound v
  Run-IsSound Run.here h = h
  Run-IsSound (Run.next {v} {x} r st) h = Step-IsSound v x st (Run-IsSound r h)

-- In whatever order the calls of a writer move and however Redis answers, at most one is between its
-- swap and its reset of the flag, and the key of each symbol has what it had, or the payload of a
-- snapshot of that symbol.
pub IsBook-Run :
    {S B : Type 0} (json : Encoding S B) (old : Assoc B) (w : RedisWriter S B)
    → Run json (new_redis_writer old) w
    → (length w.live ≤ 1)
      × ((symbol : Text) → IsBook json old symbol (lookup (book_key symbol) w.values))
IsBook-Run json old w r =
    let h = Run-IsSound json old r (record { exclusive = refl; books = λ symbol. inl refl }) in
    (omega (arith, h.exclusive, one_if-le w.in_flight), h.books)
