-- ===== src/Service.antt =====
-- The service layer of src/core/services/: its errors, the resolution of relations, and the
-- operations of the mixins, over tables that are lists of rows. Keys of dicts, names of fields and
-- primary keys are only compared: they are numbers.
pub mod Errors
pub mod Relations
pub mod Resequence
pub mod Records
pub mod Links
pub mod Defaults
pub mod Creation
pub mod Update
pub mod GroupBy
