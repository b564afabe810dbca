-- ===== src/Types.antt =====
-- The enumerations of include/types/type.h, with the bytes that stand for them.
use forkbase.Base.{ℕ}

-- `UType`
pub data UType : Type 0 where
  unknown bool num string blob list set map : UType

abbrev pub utype_code : UType → ℕ
utype_code unknown = 0
utype_code bool = 1
utype_code num = 2
utype_code string = 3
utype_code blob = 4
utype_code list = 5
utype_code set = 6
utype_code map = 7

-- `ChunkType`
pub data ChunkType : Type 0 where
  null_chunk cell meta blob_chunk map_chunk list_chunk set_chunk invalid : ChunkType

abbrev pub chunk_code : ChunkType → ℕ
chunk_code null_chunk = 0
chunk_code cell = 1
chunk_code meta = 2
chunk_code blob_chunk = 3
chunk_code map_chunk = 4
chunk_code list_chunk = 5
chunk_code set_chunk = 6
chunk_code invalid = 99

-- `ErrorCode`, those that a worker returns.
pub data ErrorCode : Type 0 where
  key_not_exists branch_exists branch_not_exists referring_version_not_exist : ErrorCode
  inconsistent_key invalid_value type_unsupported ucell_not_exists : ErrorCode
  failed_create_ucell failed_create_sblob failed_create_slist : ErrorCode
  failed_create_smap failed_create_sset failed_modify_sblob failed_modify_slist : ErrorCode
  failed_modify_smap failed_modify_sset chunk_not_exists : ErrorCode
