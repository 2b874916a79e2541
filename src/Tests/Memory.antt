-- ===== src/Tests/Memory.antt =====
-- Redis in memory, which keeps every law of `IsListStore`.
use digital_square.Base.{
  ℕ, zero, suc, refl, String, ◌==◌, eq_refl, Bool, true, false, List, [], ◌∷◌, set, if◌then◌else◌,
}
use digital_square.Errors.{ok}
use digital_square.Redis.{ℤ, pos, negsuc, up_to, Redis, IsListStore, IsCounterStore}

pub record Store : Type 0 where
  pub lists : String → List String
  pub counts : String → ℕ
  pub members : String → String → Bool

abbrev pub empty_store : Store
empty_store = record { lists = λ key. []; counts = λ key. 0; members = λ key v. false }

abbrev put : String → List String → Store → Store
put key texts s = record s { lists = λ k. if k == key then texts else s.lists k }

abbrev member : String → String → Bool → Store → Store
member key v b s = record s {
  members = λ k x. if k == key then (if x == v then b else s.members k x) else s.members k x;
}

-- A range that does not begin at the first item is not used by the program.
abbrev range : ℤ → ℤ → List String → List String
range (pos zero) last texts = up_to last texts
range _ last texts = texts

abbrev stored_at : ℤ → List String → String → List String
stored_at (pos i) texts v = set texts i v
stored_at (negsuc i) texts v = texts

abbrev pub memory : Redis
memory = record {
  State = Store;
  l_push = λ key v s. (ok tt, put key (v ∷ s.lists key) s);
  l_trim = λ key first last s. (ok tt, put key (range first last (s.lists key)) s);
  l_range = λ key first last s. (ok (range first last (s.lists key)), s);
  l_set = λ key i v s. (ok tt, put key (stored_at i (s.lists key) v) s);
  incr = λ key s. (
    ok (suc (s.counts key)),
    record s { counts = λ k. if k == key then suc (s.counts key) else s.counts k },
  );
  expire = λ key window s. (ok tt, s);
  ttl = λ key s. (ok (pos 60), s);
  s_is_member = λ key v s. (ok (s.members key v), s);
  s_add = λ key v s. (ok tt, member key v true s);
  s_rem = λ key v s. (ok tt, member key v false s);
}

pub memory-IsListStore : IsListStore memory (λ s. s.lists)
memory-IsListStore = record {
  pushed = λ key v s done. rw (eq_refl key) refl;
  trimmed = λ key last s done. rw (eq_refl key) refl;
  ranged = λ key last s found done. cc done;
  range_reads = λ key k first last s. refl;
  stored = λ key v i s done. rw (eq_refl key) refl;
}

pub memory-IsCounterStore : IsCounterStore memory (λ s. s.counts) (λ s. s.members)
memory-IsCounterStore = record {
  counted = λ key s n done. (cc done, rw (eq_refl key) refl);
  expire_keeps = λ key k window s. refl;
  ttl_keeps = λ key k s. refl;
  is_member = λ key v s b done. cc done;
  added = λ key v s done. rw (eq_refl key) (rw (eq_refl v) refl);
  removed = λ key v s done. rw (eq_refl key) (rw (eq_refl v) refl);
}
