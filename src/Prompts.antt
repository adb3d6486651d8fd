-- ===== src/Prompts.antt =====
-- prompts.py: the registry of a prompt pack. It renders a prompt into messages and checks what a model
-- returns; it calls no model and commits nothing.
pub mod Secrets
pub mod Strict
pub mod Spec
pub mod Registry
pub mod Envelope
pub mod Render
pub mod Output
pub mod Pack
pub mod Catalog
