-- ===== src/Config/File.antt =====
-- `Config::load_from_file`: the file system and the `toml` crate are parameters.
use palisade.Prelude.{◌++◌, Except, ◌>>=◌, map_err}
use palisade.Text.{Str, codes}
use palisade.Error.{Result, config}
use palisade.Config.Schema.{Config}

pub record Files : Type 1 where
  -- `std::fs::read_to_string`, `toml::from_str`, and `Path::display`, with the texts of the errors.
  pub read_to_string : Str → Except Str Str
  pub from_str : Str → Except Str Config
  pub display : Str → Str

module _ (files : Files) where
  open files use {read_to_string, from_str, display}

  unfoldable pub load_from_file : Str → Result Config
  load_from_file file_path = do
    contents ←
        map_err (λ e. config (codes "failed to read " ++ (display file_path ++ (codes ": " ++ e))))
          (read_to_string file_path)
    map_err (λ e. config (codes "failed to parse config: " ++ e)) (from_str contents)
