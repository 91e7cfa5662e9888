-- ===== src/Persistence/IndexStore/Laws.antt =====
-- What the statements read back from the tables.
use shared_dev_context_layer.Base.{String, List, [], ◌∷◌, string_Eq, ◌≡◌, arith, refl}
use shared_dev_context_layer.Base.Table.{lookup}
use shared_dev_context_layer.Persistence.IndexStore.{
  FileKey, FileRow, file_key, file_key_Eq, file_key_eq, list_project_files,
}

-- The map by path that a client builds answers as the table does.
pub lookup-list_project_files :
    (project_id path : String) (rows : List (FileKey × FileRow))
    → lookup path (list_project_files project_id rows) ≡ lookup (file_key project_id path) rows
unfolding list_project_files lookup file_key_eq
lookup-list_project_files project_id path [] = refl
lookup-list_project_files project_id path ((key, row) ∷ rows) =
    let rest = lookup-list_project_files project_id path rows in
    ground (
      arith,
      rest,
      string_Eq.equals_iff key.project_id project_id,
      string_Eq.equals_iff key.path path,
    )
