-- ===== src/Skills.antt =====
-- internal/skills: the manifests of skills, what a manifest may ask for, the schemas of their inputs,
-- and the registry that resolves and runs them.
pub mod Names
pub mod Json
pub mod Schema
pub mod Input
pub mod Text
pub mod Versions
pub mod Manifest
pub mod Registry
