-- ===== src/Stream/Reading/Counts.antt =====
-- XREADGROUP keeps the pending counts right.
use kore.Base.{
  ℕ, ◌+◌, ◌≡◌, refl, ◌∙◌, Bool, true, false, Option, none, some, List, [], ◌∷◌, arith,
  if◌then◌else◌, inl, inr, Bytes, same, same_iff, Bool-cases,
}
use kore.Base.Table.{Table, update, contains_key, lookup-update}
use kore.Stream.Id.{StreamId, next_id, Chars}
use kore.Stream.Index.{Index, find, select, ids, values, Sorted, put-Sorted}
use kore.Stream.State.{
  PendingEntry, StreamEntry, Consumer, ConsumerGroup, RedisStream, owned, from_id, ok, err, Result,
  ◌>>=◌,
}
use kore.Stream.Groups.{with_group}
use kore.Stream.Groups.Counts.{IsCounted, pending_of, pending_of-lose, owned-put, contains_key-lose}
use kore.Stream.Claim.{pending_or_new}
use kore.Stream.Claim.Counts.{pending_of-see}
use kore.Stream.Groups.Accounts.{AllCounted, with_group-AllCounted}
use kore.Stream.Reading.{
  deliver_pending, deliver_one, deliver_all, recount, see, collect, read_new, read_history,
  redeliver_all, redeliver_found, present, xreadgroup_opts, history_start,
}

-- The counts of all consumers but `name` are right, and `name` is there.
record OthersCounted (name : Bytes) (g : ConsumerGroup) : Type 0 where
  sorted : Sorted g.pending
  others : (n : Bytes) → same name n ≡ false → pending_of n g.consumers ≡ owned n g.pending
  there : contains_key name g.consumers ≡ true

module _ (now : ℕ) (name : Bytes) where
  see-OthersCounted : (g : ConsumerGroup) → IsCounted g → OthersCounted name (see now name g)
  unfolding see
  see-OthersCounted g c = record {
    sorted = c.sorted;
    others = λ n _. (pending_of-see n name now g.consumers).0 ∙ c.counts n;
    there = (pending_of-see name name now g.consumers).1;
  }

  deliver_pending-OthersCounted :
      (id : StreamId) (g : ConsumerGroup)
      → OthersCounted name g
      → OthersCounted name (deliver_pending now name id g)
  unfolding deliver_pending pending_or_new
  deliver_pending-OthersCounted id g c =
      let pe = pending_or_new name id now (find id g.pending) in
      let put_entry : PendingEntry = record pe {
        consumer = name;
        delivery_time_ms = now;
        delivery_count = pe.delivery_count + 1;
      } in
      record {
        sorted = put-Sorted id put_entry g.pending c.sorted;
        others = λ n ne. ground (
          arith,
          c.others n ne,
          owned-put n id put_entry g.pending c.sorted,
          pending_of-lose n pe.consumer g.consumers,
          same_iff pe.consumer name,
          same_iff pe.consumer n,
        );
        there = ground (arith, c.there, contains_key-lose pe.consumer name g.consumers);
      }

  deliver_all-OthersCounted :
      (es : List StreamEntry) (g : ConsumerGroup)
      → OthersCounted name g
      → OthersCounted name (deliver_all now name false es g)
  unfolding deliver_all
  deliver_all-OthersCounted [] g c = c
  deliver_all-OthersCounted (e ∷ es) g c =
      deliver_all-OthersCounted es (deliver_one now name false e.id g) (
        deliver_pending-OthersCounted e.id (record g { last_delivered_id = e.id })
          (record { sorted = c.sorted; others = c.others; there = c.there }))

  deliver_all_noack :
      (es : List StreamEntry) (g : ConsumerGroup)
      → IsCounted g
      → IsCounted (deliver_all now name true es g)
  unfolding deliver_all
  deliver_all_noack [] g c = c
  deliver_all_noack (e ∷ es) g c =
      deliver_all_noack es (record g { last_delivered_id = e.id })
        (record { sorted = c.sorted; counts = c.counts })

  pending_of-set :
      (n : Bytes) (k : ℕ) (cs : Table Consumer)
      → contains_key name cs ≡ true
      → pending_of n (update name (λ c. record c { pending = k }) cs)
        ≡ (if same name n then k else pending_of n cs)
  unfolding pending_of contains_key
  pending_of-set n k cs h =
      ground (
        arith,
        lookup-update name n (λ (c : Consumer). record c { pending = k }) cs,
        same_iff name n,
      )

  recount-IsCounted : (g : ConsumerGroup) → OthersCounted name g → IsCounted (recount name g)
  unfolding recount
  recount-IsCounted g c = record {
    sorted = c.sorted;
    counts = λ n. elim (Bool-cases (same name n)) [
      | inl e ↦
          pending_of-set n (owned name g.pending) g.consumers c.there
          ∙ ground (arith, same_iff name n)
      | inr e ↦
          pending_of-set n (owned name g.pending) g.consumers c.there ∙ ground (arith, c.others n e)
    ];
  }

  read_new-IsCounted :
      (count : Option ℕ) (noack : Bool) (entries : Index StreamEntry) (g : ConsumerGroup)
      → IsCounted g
      → IsCounted (read_new now name count noack entries g).0
  unfolding read_new
  read_new-IsCounted count true entries g c =
      deliver_all_noack (collect count 0 (values (from_id (next_id g.last_delivered_id) entries)))
        (see now name g)
        (record {
          sorted = c.sorted;
          counts = λ n. (pending_of-see n name now g.consumers).0 ∙ c.counts n;
        })
  read_new-IsCounted count false entries g c =
      let es = collect count 0 (values (from_id (next_id g.last_delivered_id) entries)) in
      recount-IsCounted (deliver_all now name false es (see now name g))
        (deliver_all-OthersCounted es (see now name g) (see-OthersCounted g c))

  redeliver_found-IsCounted :
      (id : StreamId) (g : ConsumerGroup) (old : Option PendingEntry)
      → find id g.pending ≡ old
      → IsCounted g
      → IsCounted (redeliver_found now id g old)
  unfolding redeliver_found
  redeliver_found-IsCounted id g none e c = c
  redeliver_found-IsCounted id g (some pe) e c =
      let again : PendingEntry = record pe {
        delivery_count = pe.delivery_count + 1;
        delivery_time_ms = now;
      } in
      record {
        sorted = put-Sorted id again g.pending c.sorted;
        counts = λ n. ground (arith, c.counts n, owned-put n id again g.pending c.sorted);
      }

  redeliver_all-IsCounted :
      (es : List StreamEntry) (g : ConsumerGroup) → IsCounted g → IsCounted (redeliver_all now es g)
  unfolding redeliver_all
  redeliver_all-IsCounted [] g c = c
  redeliver_all-IsCounted (e ∷ es) g c =
      redeliver_all-IsCounted es _ (redeliver_found-IsCounted e.id g (find e.id g.pending) refl c)

  read_history-IsCounted :
      (count : Option ℕ) (after : StreamId) (entries : Index StreamEntry) (g : ConsumerGroup)
      → IsCounted g
      → IsCounted (read_history now name count after entries g).0
  unfolding read_history
  read_history-IsCounted count after entries g c =
      redeliver_all-IsCounted
        (collect count 0 (
          present entries
            (ids (select (λ _ pe. same pe.consumer name) (from_id (next_id after) g.pending)))))
        (see now name g)
        (record {
          sorted = c.sorted;
          counts = λ n. (pending_of-see n name now g.consumers).0 ∙ c.counts n;
        })

history-AllCounted :
    (now : ℕ) (group_name name : Bytes) (start : Result StreamId) (count : Option ℕ)
    (s s' : RedisStream) (r : List StreamEntry)
    → AllCounted s.groups
    → (start >>= λ after. with_group group_name s (read_history now name count after s.entries))
      ≡ ok (s', r)
    → AllCounted s'.groups
history-AllCounted now group_name name (ok after) count s s' r c e =
    with_group-AllCounted group_name s s' r (read_history now name count after s.entries)
      (read_history-IsCounted now name count after s.entries) c e
history-AllCounted now group_name name (err x) count s s' r c e = absurd (ground arith)

-- XREADGROUP keeps the counts of every group right.
pub xreadgroup_opts-AllCounted :
    (now : ℕ) (group_name name : Bytes) (id_spec : Chars) (count : Option ℕ) (noack : Bool)
    (s s' : RedisStream) (r : List StreamEntry)
    → AllCounted s.groups
    → xreadgroup_opts now group_name name id_spec count noack s ≡ ok (s', r)
    → AllCounted s'.groups
unfolding xreadgroup_opts
xreadgroup_opts-AllCounted now group_name name id_spec count noack s s' r c e =
    elim (Bool-cases (contains_key group_name s.groups)) [
      | inr p ↦ absurd (ground arith)
      | inl p ↦ elim (Bool-cases (same id_spec (b'>' ∷ []))) [
        | inl q ↦
            with_group-AllCounted group_name s s' r (read_new now name count noack s.entries)
              (read_new-IsCounted now name count noack s.entries) c (ground arith)
        | inr q ↦
            history-AllCounted now group_name name (history_start id_spec) count s s' r c
              (ground arith)
      ]
    ]
