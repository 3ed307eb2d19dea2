-- ===== src/Config.antt =====
-- src/cfg_tokenizer.c, src/cfg_parser.c and src/config.c: the configuration file.
pub mod Tokenizer
pub mod Parser
