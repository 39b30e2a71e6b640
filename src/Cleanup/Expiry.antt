-- ===== src/Cleanup/Expiry.antt =====
-- Which sessions a cleanup deletes, and what it leaves.
use mcp_session_router.Base.{
  ℕ, ◌≤◌, String, ◌≡◌, refl, Bool, true, false, ◌&&◌, ◌==◌, eq_iff, if◌then◌else◌, arith, any,
  keep_if, All, contains, map, ap, ◌∙◌,
}
use mcp_session_router.Base.{Option, none, some, List, [], ◌∷◌, Result, ok, err}
use mcp_session_router.Base.Times.{Time, naive, aware, IsZoned}
use mcp_session_router.Base.Int.{pos, negsuc}
use mcp_session_router.Json.{Json, null, bool, int, obj, get_or}
use mcp_session_router.Session.{SessionMetadata}
use mcp_session_router.Store.{
  TextFormat, Directory, list_sessions, load_session, delete_session, sort_files,
}
use mcp_session_router.Store.Laws.{
  IsConsistent, load_session-delete_session, delete_session-IsConsistent,
}
use mcp_session_router.Store.ByName.{
  ids, keys, list_sessions_lem, contains-sort_files, contains_loaded,
}
use mcp_session_router.Cleanup.{
  Settings, unreadable, not_json, parsed, get_cleanup_period_days, period_of, cutoff_of, expires,
  is_over, reported, cleanup_loop, cleanup_at, cleanup_with, cleanup_expired_sessions,
}

period_pos : (v : Json) → 1 ≤ period_of v
period_pos null = omega arith
period_pos (bool true) = omega arith
period_pos (bool false) = omega arith
period_pos (int (pos n)) = ground arith
period_pos (int (negsuc n)) = omega arith
period_pos v = omega arith

pub get_cleanup_period_days_pos : (s : Settings) (n : ℕ) → get_cleanup_period_days s ≡ ok n → 1 ≤ n
unfolding get_cleanup_period_days
get_cleanup_period_days_pos unreadable n h = ground arith
get_cleanup_period_days_pos not_json n h = ground arith
get_cleanup_period_days_pos (parsed (obj d)) n h =
    ground (arith, period_pos (get_or "cleanupPeriodDays" (int (pos 30)) d))
get_cleanup_period_days_pos (parsed v) n h = cc

module _ (F : TextFormat) (time : String → Option Time) (activity : List String → Option ℕ) where
  abbrev or_kept : Result Bool → Bool
  or_kept (ok b) = b
  or_kept (err e) = false

  -- Whether the cleanup takes a session for expired.
  abbrev pub expired : ℕ → SessionMetadata → Bool
  expired cutoff s = or_kept (expires time activity cutoff s)

  is_over-IsZoned :
      (o : Option Time) (a : Option ℕ) (cutoff : ℕ)
      → IsZoned o
      → is_over o a cutoff ≡ ok (or_kept (is_over o a cutoff))
  is_over-IsZoned none a cutoff z = refl
  is_over-IsZoned (some (naive t)) a cutoff z = absurd z
  is_over-IsZoned (some (aware t)) a cutoff z = refl

  abbrev HasZone : SessionMetadata → Type 0
  HasZone s = IsZoned (time s.last_accessed)

  expires-HasZone :
      (cutoff : ℕ) (s : SessionMetadata)
      → HasZone s
      → expires time activity cutoff s ≡ ok (expired cutoff s)
  unfolding expires
  expires-HasZone cutoff s z =
      is_over-IsZoned (time s.last_accessed) (activity s.claude_conversation_ids) cutoff z

  -- The loop where nothing raises.
  unfoldable swept : ℕ → List SessionMetadata → Directory F → List String × Directory F
  swept cutoff [] dir = ([], dir)
  swept cutoff (s ∷ ss) dir =
      let gone = expired cutoff s in
      let (deleted, dir') =
        swept cutoff ss (if gone then delete_session F s.session_id dir else dir) in
      (reported gone s.name deleted, dir')

  cleanup_loop-swept :
      (cutoff : ℕ) (ss : List SessionMetadata) (dir : Directory F)
      → All HasZone ss
      → cleanup_loop F time activity cutoff ss dir
        ≡ (let (names, dir') = swept cutoff ss dir in (ok names, dir'))
  unfolding cleanup_loop swept
  cleanup_loop-swept cutoff [] dir z = refl
  cleanup_loop-swept cutoff (s ∷ ss) dir (z, zs) = rw (expires-HasZone cutoff s z) (
      rw
        (cleanup_loop-swept cutoff ss
          (if expired cutoff s then delete_session F s.session_id dir else dir) zs)
        refl)

  All-HasZone :
      (ss : List SessionMetadata) (dir : Directory F)
      → All (λ s. load_session F s.session_id dir ≡ ok (some s)) ss
      → ((k : String) (s : SessionMetadata) → load_session F k dir ≡ ok (some s) → HasZone s)
      → All HasZone ss
  All-HasZone [] dir a z = tt
  All-HasZone (s ∷ ss) dir (l, a) z = (z s.session_id s l, All-HasZone ss dir a z)

  -- Whether the loop deletes the file of an id.
  abbrev deletes : ℕ → List SessionMetadata → String → Bool
  deletes cutoff ss k = any (λ s. s.session_id == k && expired cutoff s) ss

  load_session-swept :
      (cutoff : ℕ) (ss : List SessionMetadata) (dir : Directory F) (k : String)
      → load_session F k (swept cutoff ss dir).1
        ≡ (if deletes cutoff ss k then ok none else load_session F k dir)
  unfolding swept
  load_session-swept cutoff [] dir k = refl
  load_session-swept cutoff (s ∷ ss) dir k = ground (
    arith,
    load_session-swept cutoff ss dir k,
    load_session-swept cutoff ss (delete_session F s.session_id dir) k,
    load_session-delete_session F s.session_id k dir,
  )

  if_IsConsistent :
      (b : Bool) (k : String) (dir : Directory F)
      → IsConsistent F dir
      → IsConsistent F (if b then delete_session F k dir else dir)
  if_IsConsistent true k dir c = delete_session-IsConsistent F k dir c
  if_IsConsistent false k dir c = c

  swept-IsConsistent :
      (cutoff : ℕ) (ss : List SessionMetadata) (dir : Directory F)
      → IsConsistent F dir
      → IsConsistent F (swept cutoff ss dir).1
  unfolding swept
  swept-IsConsistent cutoff [] dir c = c
  swept-IsConsistent cutoff (s ∷ ss) dir c =
      swept-IsConsistent cutoff ss _ (if_IsConsistent (expired cutoff s) s.session_id dir c)

  names-swept :
      (cutoff : ℕ) (ss : List SessionMetadata) (dir : Directory F)
      → (swept cutoff ss dir).0 ≡ map (λ s. s.name) (keep_if (expired cutoff) ss)
  unfolding swept
  names-swept cutoff [] dir = refl
  names-swept cutoff (s ∷ ss) dir =
      ground (
        arith,
        names-swept cutoff ss dir,
        names-swept cutoff ss (delete_session F s.session_id dir),
      )

  -- What is left of a stored session.
  abbrev pub kept : ℕ → Option SessionMetadata → Option SessionMetadata
  kept cutoff none = none
  kept cutoff (some s) = if expired cutoff s then none else some s

  abbrev expires_in : ℕ → List SessionMetadata → String → Option SessionMetadata → Bool
  expires_in cutoff ss k none = false
  expires_in cutoff ss k (some s) = contains (ids ss) k && expired cutoff s

  deletes-eq :
      (cutoff : ℕ) (ss : List SessionMetadata) (dir : Directory F) (k : String)
      (o : Option SessionMetadata)
      → All (λ s. load_session F s.session_id dir ≡ ok (some s)) ss
      → load_session F k dir ≡ ok o
      → deletes cutoff ss k ≡ expires_in cutoff ss k o
  deletes-eq cutoff [] dir k none a h = refl
  deletes-eq cutoff [] dir k (some x) a h = refl
  deletes-eq cutoff (s ∷ ss) dir k none a h =
      ground (arith, eq_iff s.session_id k, deletes-eq cutoff ss dir k none a.1 h)
  deletes-eq cutoff (s ∷ ss) dir k (some x) a h = ground (
    arith,
    eq_iff s.session_id k,
    eq_iff k s.session_id,
    deletes-eq cutoff ss dir k (some x) a.1 h,
  )

  left_by_cleanup :
      (cutoff : ℕ) (ss : List SessionMetadata) (dir : Directory F) (k : String)
      (o : Option SessionMetadata)
      → All (λ s. load_session F s.session_id dir ≡ ok (some s)) ss
      → ids ss ≡ keys (sort_files dir)
      → load_session F k dir ≡ ok o
      → load_session F k (swept cutoff ss dir).1 ≡ ok (kept cutoff o)
  left_by_cleanup cutoff ss dir k none a i l =
      ground (arith, load_session-swept cutoff ss dir k, deletes-eq cutoff ss dir k none a l)
  left_by_cleanup cutoff ss dir k (some s) a i l =
      let listed : contains (ids ss) k ≡ true =
        ap (λ xs. contains xs k) i ∙ contains-sort_files dir k ∙ contains_loaded F dir k s l in
      ground
        (arith, load_session-swept cutoff ss dir k, deletes-eq cutoff ss dir k (some s) a l, listed)

  pub cleanup_expired_sessions_lem :
      (now period_days cutoff : ℕ) (dir : Directory F)
      → IsConsistent F dir
      → cutoff_of now period_days ≡ ok cutoff
      → ((k : String) (s : SessionMetadata)
          → load_session F k dir ≡ ok (some s)
          → IsZoned (time s.last_accessed))
      → (ss : List SessionMetadata) × (dir' : Directory F) × (list_sessions F dir ≡ ok ss)
        × (cleanup_expired_sessions F time activity now period_days dir
            ≡ (ok (map (λ s. s.name) (keep_if (expired cutoff) ss)), dir'))
        × ((k : String) (o : Option SessionMetadata)
            → load_session F k dir ≡ ok o
            → load_session F k dir' ≡ ok (kept cutoff o))
        × IsConsistent F dir'
  unfolding cleanup_expired_sessions
  cleanup_expired_sessions_lem now period_days cutoff dir c h z =
      let (ss, e, i, a) = list_sessions_lem F dir c in
      (
        ss,
        (swept cutoff ss dir).1,
        e,
        ap (λ r. cleanup_with F time activity r dir) h
            ∙ ap (λ r. cleanup_at F time activity cutoff r dir) e
            ∙ cleanup_loop-swept cutoff ss dir (All-HasZone ss dir a z)
            ∙ ap (λ names. (ok names, (swept cutoff ss dir).1)) (names-swept cutoff ss dir),
        λ k o l. left_by_cleanup cutoff ss dir k o a i l,
        swept-IsConsistent cutoff ss dir c,
      )
