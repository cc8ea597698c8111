-- ===== src/Applier.antt =====
-- internal/operator-controller/applier: how the contents of a bundle become a revision.
pub mod Phase
pub mod Packer
pub mod Boxcutter
pub mod Migration
