-- ===== src/Log.antt =====
-- `Log` (Log.h, Log.cpp): where the log goes. The file system and the daily file of spdlog are parameters;
-- what is logged is not modelled.
use suda_gureum.Base.Result.{Result, ok, raised, ◌>>=◌, runtime_error, std_exception}
use suda_gureum.Base.{
  Bool, true, false, List, [], ◌∷◌, ◌++◌, Option, none, some, if◌then◌else◌, Bytes, codes,
}
use suda_gureum.Configure.{ConfigureMap, get}

pub data Sink : Type 0 where
  daily_file : Bytes → Sink
  stdout : Sink

-- `create_directories`: whether it made one, and the message of its error code; `/` of paths; and the
-- message of the exception with which a daily file is refused.
pub record FileSystem : Type 0 where
  pub create_directories : Bytes → Bool × Option Bytes
  pub append_path : Bytes → Bytes → Bytes
  pub refuses_file : Bytes → Option Bytes

abbrev pub value_or : Option Bytes → Bytes → Bytes
value_or none default_value = default_value
value_or (some value) default_value = value

abbrev created : Bytes × Bool → Option Bytes → Result Bytes
created (path, true) ec = ok path
created (path, false) none = ok path
created (path, false) (some message) =
    raised (runtime_error (codes "cannot create data directory: " ++ message))

-- The path, once its directories are there.
unfoldable pub create_data_directory : FileSystem → Bytes → Result Bytes
create_data_directory fs path =
    let (made, ec) = fs.create_directories path in created (path, made) ec

abbrev opened : Bytes → Option Bytes → Result Sink
opened path none = ok (daily_file path)
opened path (some message) = raised (std_exception message)

-- The sinks of the logger.
unfoldable pub set_up_logger : FileSystem → Bool → ConfigureMap → Result (List Sink)
unfolding create_data_directory
set_up_logger fs daemonized conf = do
  path ← create_data_directory fs (value_or (get (codes "log_path") conf) (codes "./Data/Log"))
  file ←
      opened (fs.append_path path (codes "SudaGureum"))
        (fs.refuses_file (fs.append_path path (codes "SudaGureum")))
  ok (file ∷ (if daemonized then [] else stdout ∷ []))
