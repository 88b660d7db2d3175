-- ===== src/Stream/Accounting.antt =====
-- The pending counts through every history of a stream that trims nothing.
use kore.Base.{ℕ, ◌≡◌, Bool, Option, List, Bytes, subst}
use kore.Stream.Id.{StreamId, Chars}
use kore.Stream.State.{StreamEntry, RedisStream, new, xadd, ok}
use kore.Stream.Groups.{
  xdel, group_create, group_destroy, group_create_consumer, group_del_consumer, group_setid, xack,
  xsetid,
}
use kore.Stream.Groups.Accounts
use kore.Stream.Groups.Accounts.{AllCounted}
use kore.Stream.Claim.{XClaimOpts, xclaim, xautoclaim}
use kore.Stream.Claim.Counts.{xclaim-AllCounted, xautoclaim-AllCounted}
use kore.Stream.Reading.{xreadgroup_opts}
use kore.Stream.Reading.Counts.{xreadgroup_opts-AllCounted}

-- One call of an operation that succeeds, without a trim.
pub data Step (s s' : RedisStream) : Type 0 where
  added :
      (now : ℕ) (spec : Chars) (fields : List (Bytes × Bytes)) (id : StreamId)
      → xadd now spec fields s ≡ ok (s', id)
      → Step s s'
  deleted : (targets : List StreamId) (n : ℕ) → xdel targets s ≡ (s', n) → Step s s'
  id_set :
      (id : StreamId) (n : Option ℕ) (d : Option StreamId) → xsetid id n d s ≡ ok s' → Step s s'
  group_created :
      (name : Bytes) (id : StreamId) (read : Option ℕ)
      → group_create name id read s ≡ ok s'
      → Step s s'
  group_destroyed : (name : Bytes) (b : Bool) → group_destroy name s ≡ (s', b) → Step s s'
  consumer_created :
      (now : ℕ) (group_name name : Bytes) (b : Bool)
      → group_create_consumer now group_name name s ≡ ok (s', b)
      → Step s s'
  consumer_deleted :
      (group_name name : Bytes) (n : ℕ)
      → group_del_consumer group_name name s ≡ ok (s', n)
      → Step s s'
  cursor_set :
      (name : Bytes) (id : StreamId) (read : Option ℕ)
      → group_setid name id read s ≡ ok (s', tt)
      → Step s s'
  acknowledged :
      (name : Bytes) (targets : List StreamId) (n : ℕ)
      → xack name targets s ≡ ok (s', n)
      → Step s s'
  claimed :
      (now : ℕ) (group_name name : Bytes) (targets : List StreamId) (o : XClaimOpts)
      (r : List StreamId)
      → xclaim now group_name name targets o s ≡ ok (s', r)
      → Step s s'
  auto_claimed :
      (now : ℕ) (group_name name : Bytes) (min_idle : ℕ) (start : StreamId) (count : ℕ)
      (just_id : Bool) (r : StreamId × List StreamId × List StreamId)
      → xautoclaim now group_name name min_idle start count just_id s ≡ ok (s', r)
      → Step s s'
  group_read :
      (now : ℕ) (group_name name : Bytes) (spec : Chars) (count : Option ℕ) (noack : Bool)
      (r : List StreamEntry)
      → xreadgroup_opts now group_name name spec count noack s ≡ ok (s', r)
      → Step s s'

pub data Reachable : RedisStream → Type 0 where
  start : Reachable new
  next : {s s' : RedisStream} → Reachable s → Step s s' → Reachable s'

Step-AllCounted : {s s' : RedisStream} → Step s s' → AllCounted s.groups → AllCounted s'.groups
Step-AllCounted {s} {s'} (added now spec fields id e) c =
    Accounts.xadd-AllCounted now spec fields id s s' c e
Step-AllCounted {s} {s'} (deleted targets n e) c =
    subst (λ (p : RedisStream × ℕ). AllCounted p.0.groups) e (Accounts.xdel-AllCounted targets s c)
Step-AllCounted {s} {s'} (id_set id n d e) c = Accounts.xsetid-AllCounted id n d s s' c e
Step-AllCounted {s} {s'} (group_created name id read e) c =
    Accounts.group_create-AllCounted s s' c name id read e
Step-AllCounted {s} {s'} (group_destroyed name b e) c =
    subst (λ (p : RedisStream × Bool). AllCounted p.0.groups) e
      (Accounts.group_destroy-AllCounted name s c)
Step-AllCounted {s} {s'} (consumer_created now group_name name b e) c =
    Accounts.group_create_consumer-AllCounted s s' c now group_name name b e
Step-AllCounted {s} {s'} (consumer_deleted group_name name n e) c =
    Accounts.group_del_consumer-AllCounted s s' c group_name name n e
Step-AllCounted {s} {s'} (cursor_set name id read e) c =
    Accounts.group_setid-AllCounted s s' c name id read e
Step-AllCounted {s} {s'} (acknowledged name targets n e) c =
    Accounts.xack-AllCounted s s' c name targets n e
Step-AllCounted {s} {s'} (claimed now group_name name targets o r e) c =
    xclaim-AllCounted now group_name name targets o s s' r c e
Step-AllCounted {s} {s'} (auto_claimed now group_name name min_idle from count just_id r e) c =
    xautoclaim-AllCounted now group_name name min_idle from count just_id s s' r c e
Step-AllCounted {s} {s'} (group_read now group_name name spec count noack r e) c =
    xreadgroup_opts-AllCounted now group_name name spec count noack s s' r c e

-- After any operations without a trim, the pending count of every consumer of every group is the
-- number of entries that it owns in the pending list of the group.
pub Reachable-AllCounted : (s : RedisStream) → Reachable s → AllCounted s.groups
Reachable-AllCounted s start = unfold new in tt
Reachable-AllCounted s (next r st) = Step-AllCounted st (Reachable-AllCounted _ r)
