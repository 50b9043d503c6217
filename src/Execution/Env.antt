-- ===== src/Execution/Env.antt =====
-- What agent_execution.py asks of the operating system and of Python's library, as functions: which
-- locks other owners hold, how a write of a record ends, how paths resolve, digests, and the host's boot identity.
use todo_pipeline_orch.Prelude.{String, Bool, Option}

-- The state of an advisory lock as this process finds it: free (or already its own), held by another
-- owner, or not to be had for another reason.
pub data Lock : Type 0 where
  free contended unavailable : Lock

-- How the write of a record ends: it succeeds; the record is over `MAX_RECORD_BYTES`; an error of the
-- operating system comes before the file is replaced, or in `os.fsync(directory_fd)` after it.
pub data Write : Type 0 where
  complete too_large not_replaced not_synced : Write

pub record Env : Type 0 where
  pub lock : String → Lock
  -- The end of a write of this execution's record.
  pub write : String → Write
  -- `Path(worktree).resolve()`
  pub resolve : String → String
  -- `Path(worktree).is_absolute()`
  pub is_absolute : String → Bool
  -- `self.root.resolve().is_relative_to(path)`, at a resolved path.
  pub root_is_inside : String → Bool
  -- `base64.b64decode(text, validate=True)`, and `base64.b64encode(bytes).decode("ascii")`.
  pub b64decode : String → Option String
  pub b64encode : String → String
  -- `hashlib.sha256(bytes).hexdigest()`
  pub sha256 : String → String
  pub host : String
  pub boot_id : Option String
