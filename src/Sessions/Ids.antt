-- ===== src/Sessions/Ids.antt =====
-- The id that `create` gives a thread.
use tethys.Prelude.{◌+◌, ◌≡◌, ◌==◌, true, String, length, string_eq, eq_iff, arith, if◌then◌else◌}
use tethys.Prelude.Assoc.{insert, contains_key, lookup-insert, length-insert}
use tethys.Sessions.{
  ApiResult, done, CreateThread, ThreadHandle, ThreadSessions, create, handle, thread_id,
  new_handle, summary,
}

module _ (s : ThreadSessions) (root : String → ApiResult String) (request : CreateThread)
    (workspace_root : String) (known : contains_key request.agent_profile_id s.profiles ≡ true)
    (found : root request.workspace_id ≡ done workspace_root) where
  abbrev id : String
  id = thread_id (length s.threads + 1)

  created :
      (create s root request).0
      ≡ record s { threads = insert id (new_handle id request workspace_root) s.threads }
  unfolding create
  created = ground (arith, known, found)

  -- With a known profile and a workspace that has a root, `create` answers with the new thread's
  -- summary, and `handle` finds the new thread under its id, in place of any that had the id, and
  -- every other thread as before.
  create-handle :
      ((create s root request).1 ≡ done (summary (new_handle id request workspace_root).inner))
      × ((j : String)
          → handle (create s root request).0 j
            ≡ (if id == j then done (new_handle id request workspace_root) else handle s j))
  unfolding create handle
  create-handle = (
    ground (arith, known, found),
    λ j.
        rw created
          (ground (arith, lookup-insert id j (new_handle id request workspace_root) s.threads)),
  )

  -- After deletions the next id can be that of a thread that lives: then `create` puts an empty
  -- thread in its place, and there are no more threads than before.
  pub create_replaces :
      (old : ThreadHandle)
      → handle s id ≡ done old
      → (handle (create s root request).0 id ≡ done (new_handle id request workspace_root))
        × (length (create s root request).0.threads ≡ length s.threads)
  unfolding create handle
  create_replaces old lives = (
    rw created (
        ground (
          arith,
          lookup-insert id id (new_handle id request workspace_root) s.threads,
          eq_iff id id,
        )),
    rw created
        (length-insert id (new_handle id request workspace_root) s.threads (ground (arith, lives))),
  )
