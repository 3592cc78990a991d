-- ===== src/Ring/Mpmc/Refine.antt =====
-- A multi-producer ring, one call at a time, is a FIFO of at most `capacity` elements.
use storage_engine.Prelude.{
  ℕ, zero, suc, ◌+◌, ◌-◌, ◌≤◌, ◌≡◌, refl, sym, ap, ◌∙◌, List, [], ◌∷◌, ◌++◌, ◌==◌, arith, add_word,
  sub_word, length, take, drop, length-take, min, take-append_self, drop-append_self,
  take-length-take, append-nil, if◌then◌else◌, ltb, take-min-length, drop-min-length,
}
use storage_engine.Prelude.Window.{length-window}
use storage_engine.Ring.Mpmc.{
  MpmcRing, write_slots, read_slots, enqueue_bulk, dequeue_bulk, dequeue_bulk_mc, count,
}
use storage_engine.Ring.Mpmc.Contents.{
  IsValid, contents, length-contents, pushed, popped, read_slots-window, free_entries-eq,
  contents-pushed, contents-popped, pushed-IsValid, popped-IsValid,
}

module _ {ℓ} {A : Type ℓ} where
  -- The end of `enqueue_bulk`, for the count `n` and the elements `xs` that it settled on.
  abbrev finish : MpmcRing A → ℕ → List A → ℕ × MpmcRing A
  finish r n xs = if n == 0 then (0, r) else (
    n,
    record r {
      prod_head = add_word r.prod_head n;
      prod_tail = add_word r.prod_head n;
      ring = write_slots r.capacity r.ring r.prod_head 0 xs;
    },
  )

  bounded_enqueue :
      (r : MpmcRing A) (objs : List A)
      → IsValid r
      → let xs = take (r.capacity - count r) objs in enqueue_bulk r objs ≡ finish r (length xs) xs
  unfolding enqueue_bulk
  bounded_enqueue r objs v =
      ap (λ n. finish r n (take n objs)) bound
      ∙ ap (finish r (length (take (r.capacity - count r) objs)))
          (take-length-take (r.capacity - count r) objs)
    where
      bound :
          (let free_entries = sub_word (add_word r.capacity r.cons_tail) r.prod_head in
            if ltb free_entries (length objs) then free_entries else length objs)
          ≡ length (take (r.capacity - count r) objs)
      bound = rw (free_entries-eq r v) (ground (arith, length-take (r.capacity - count r) objs))

  -- As many elements are taken as there is room for, and appended in order; the ring stays valid.
  pub enqueue_bulk_refines :
      (r : MpmcRing A) (objs : List A)
      → IsValid r
      → let (n, r') = enqueue_bulk r objs in
        (n ≡ min (length objs) (r.capacity - count r))
        × (contents r' ≡ contents r ++ take (r.capacity - count r) objs)
        × IsValid r'
  enqueue_bulk_refines r objs v =
      rw (bounded_enqueue r objs v)
        (branch (take (r.capacity - count r) objs) (length-take (r.capacity - count r) objs))
    where
      branch :
          (xs : List A)
          → length xs ≡ min (r.capacity - count r) (length objs)
          → let (n, r') = finish r (length xs) xs in
            (n ≡ min (length objs) (r.capacity - count r))
            × (contents r' ≡ contents r ++ xs)
            × IsValid r'
      branch [] e = (omega arith, sym (append-nil (contents r)), v)
      branch (x ∷ xs) e =
          let some_left : finish r (length (x ∷ xs)) (x ∷ xs)
              ≡ (length (x ∷ xs), pushed r (x ∷ xs)) =
            ground arith in
          rw some_left (
            omega arith,
            contents-pushed r (x ∷ xs) v (omega arith),
            pushed-IsValid r (x ∷ xs) v (omega arith),
          )

  abbrev taken : MpmcRing A → ℕ → List A × MpmcRing A
  taken r m = if m == 0 then ([], r) else (read_slots r.capacity r.ring r.cons_head 0 m, popped r m)

  taken_splits :
      (r : MpmcRing A) (m : ℕ)
      → IsValid r
      → m ≤ count r
      → ((taken r m).0 ≡ take m (contents r))
        × (contents (taken r m).1 ≡ drop m (contents r))
        × IsValid (taken r m).1
  taken_splits r zero v le = (refl, refl, v)
  taken_splits r (suc m) v le =
      rw (more, contents-popped r (suc m) v le)
        (
          sym (take-append_self (suc m) out rest full),
          sym (drop-append_self (suc m) out rest full),
          popped-IsValid r (suc m) v le,
        )
    where
      more :
          taken r (suc m) ≡ (read_slots r.capacity r.ring r.cons_head 0 (suc m), popped r (suc m))
      more = ground arith

      out : List A
      out = read_slots r.capacity r.ring r.cons_head 0 (suc m)

      rest : List A
      rest = contents (popped r (suc m))

      full : length out ≡ suc m
      full =
          ap length (read_slots-window v.is_capacity r.ring r.cons_head 0 (suc m))
          ∙ length-window r.capacity r.ring (r.cons_head + 0) (suc m)

  -- The `n` oldest elements, or all, come out in order, and the rest stays.
  pub dequeue_bulk_refines :
      (r : MpmcRing A) (n : ℕ)
      → IsValid r
      → let (out, r') = dequeue_bulk r n in
        (out ≡ take n (contents r)) × (contents r' ≡ drop n (contents r)) × IsValid r'
  unfolding dequeue_bulk count
  dequeue_bulk_refines r n v =
      let (out, rest, keep) = taken_splits r (min n (count r)) v (omega arith) in
      let e : min n (count r) ≡ min n (length (contents r)) =
        ap (min n) (sym (length-contents r)) in
      (
        out ∙ ap (λ k. take k (contents r)) e ∙ take-min-length n (contents r),
        rest ∙ ap (λ k. drop k (contents r)) e ∙ drop-min-length n (contents r),
        keep,
      )

  -- One call at a time, the multi-consumer dequeue is the single-consumer one.
  pub dequeue_bulk_mc-eq-dequeue_bulk :
      (r : MpmcRing A) (n : ℕ) → dequeue_bulk_mc r n ≡ dequeue_bulk r n
  unfolding dequeue_bulk dequeue_bulk_mc
  dequeue_bulk_mc-eq-dequeue_bulk r n = refl
