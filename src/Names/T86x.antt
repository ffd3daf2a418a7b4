-- ===== src/Names/T86x.antt =====
-- hwc_names.hpp: the counter names of the T86x GPUs, 64 for each of the four blocks in the order of
-- their memory layout. An empty name is a hole in the block.
use hwcpipe.Common.{String, List, [], ◌∷◌, ◌++◌}

abbrev pub job_manager : List String
job_manager =
    "" ∷ "" ∷ "" ∷ "" ∷ "T86x_MESSAGES_SENT" ∷ "T86x_MESSAGES_RECEIVED" ∷ "T86x_GPU_ACTIVE"
    ∷ "T86x_IRQ_ACTIVE" ∷ "T86x_JS0_JOBS" ∷ "T86x_JS0_TASKS" ∷ "T86x_JS0_ACTIVE" ∷ ""
    ∷ "T86x_JS0_WAIT_READ" ∷ "T86x_JS0_WAIT_ISSUE" ∷ "T86x_JS0_WAIT_DEPEND" ∷ "T86x_JS0_WAIT_FINISH"
    ∷ "T86x_JS1_JOBS" ∷ "T86x_JS1_TASKS" ∷ "T86x_JS1_ACTIVE" ∷ "" ∷ "T86x_JS1_WAIT_READ"
    ∷ "T86x_JS1_WAIT_ISSUE" ∷ "T86x_JS1_WAIT_DEPEND" ∷ "T86x_JS1_WAIT_FINISH" ∷ "T86x_JS2_JOBS"
    ∷ "T86x_JS2_TASKS" ∷ "T86x_JS2_ACTIVE" ∷ "" ∷ "T86x_JS2_WAIT_READ" ∷ "T86x_JS2_WAIT_ISSUE"
    ∷ "T86x_JS2_WAIT_DEPEND" ∷ "T86x_JS2_WAIT_FINISH" ∷ "" ∷ "" ∷ "" ∷ "" ∷ "" ∷ "" ∷ "" ∷ "" ∷ ""
    ∷ "" ∷ "" ∷ "" ∷ "" ∷ "" ∷ "" ∷ "" ∷ "" ∷ "" ∷ "" ∷ "" ∷ "" ∷ "" ∷ "" ∷ "" ∷ "" ∷ "" ∷ "" ∷ ""
    ∷ "" ∷ "" ∷ "" ∷ "" ∷ []

abbrev pub tiler : List String
tiler =
    "" ∷ "" ∷ "" ∷ "T86x_TI_JOBS_PROCESSED" ∷ "T86x_TI_TRIANGLES" ∷ "T86x_TI_QUADS"
    ∷ "T86x_TI_POLYGONS" ∷ "T86x_TI_POINTS" ∷ "T86x_TI_LINES" ∷ "T86x_TI_VCACHE_HIT"
    ∷ "T86x_TI_VCACHE_MISS" ∷ "T86x_TI_FRONT_FACING" ∷ "T86x_TI_BACK_FACING"
    ∷ "T86x_TI_PRIM_VISIBLE" ∷ "T86x_TI_PRIM_CULLED" ∷ "T86x_TI_PRIM_CLIPPED" ∷ "T86x_TI_LEVEL0"
    ∷ "T86x_TI_LEVEL1" ∷ "T86x_TI_LEVEL2" ∷ "T86x_TI_LEVEL3" ∷ "T86x_TI_LEVEL4" ∷ "T86x_TI_LEVEL5"
    ∷ "T86x_TI_LEVEL6" ∷ "T86x_TI_LEVEL7" ∷ "T86x_TI_COMMAND_1" ∷ "T86x_TI_COMMAND_2"
    ∷ "T86x_TI_COMMAND_3" ∷ "T86x_TI_COMMAND_4" ∷ "T86x_TI_COMMAND_5_7" ∷ "T86x_TI_COMMAND_8_15"
    ∷ "T86x_TI_COMMAND_16_63" ∷ "T86x_TI_COMMAND_64" ∷ "T86x_TI_COMPRESS_IN"
    ∷ "T86x_TI_COMPRESS_OUT" ∷ "T86x_TI_COMPRESS_FLUSH" ∷ "T86x_TI_TIMESTAMPS"
    ∷ "T86x_TI_PCACHE_HIT" ∷ "T86x_TI_PCACHE_MISS" ∷ "T86x_TI_PCACHE_LINE" ∷ "T86x_TI_PCACHE_STALL"
    ∷ "T86x_TI_WRBUF_HIT" ∷ "T86x_TI_WRBUF_MISS" ∷ "T86x_TI_WRBUF_LINE" ∷ "T86x_TI_WRBUF_PARTIAL"
    ∷ "T86x_TI_WRBUF_STALL" ∷ "T86x_TI_ACTIVE" ∷ "T86x_TI_LOADING_DESC" ∷ "T86x_TI_INDEX_WAIT"
    ∷ "T86x_TI_INDEX_RANGE_WAIT" ∷ "T86x_TI_VERTEX_WAIT" ∷ "T86x_TI_PCACHE_WAIT"
    ∷ "T86x_TI_WRBUF_WAIT" ∷ "T86x_TI_BUS_READ" ∷ "T86x_TI_BUS_WRITE" ∷ "" ∷ "" ∷ "" ∷ "" ∷ ""
    ∷ "T86x_TI_UTLB_HIT" ∷ "T86x_TI_UTLB_NEW_MISS" ∷ "T86x_TI_UTLB_REPLAY_FULL"
    ∷ "T86x_TI_UTLB_REPLAY_MISS" ∷ "T86x_TI_UTLB_STALL" ∷ []

abbrev pub shader : List String
shader =
    "" ∷ "" ∷ "" ∷ "" ∷ "T86x_FRAG_ACTIVE" ∷ "T86x_FRAG_PRIMITIVES" ∷ "T86x_FRAG_PRIMITIVES_DROPPED"
    ∷ "T86x_FRAG_CYCLES_DESC" ∷ "T86x_FRAG_CYCLES_FPKQ_ACTIVE" ∷ "T86x_FRAG_CYCLES_VERT"
    ∷ "T86x_FRAG_CYCLES_TRISETUP" ∷ "T86x_FRAG_CYCLES_EZS_ACTIVE" ∷ "T86x_FRAG_THREADS"
    ∷ "T86x_FRAG_DUMMY_THREADS" ∷ "T86x_FRAG_QUADS_RAST" ∷ "T86x_FRAG_QUADS_EZS_TEST"
    ∷ "T86x_FRAG_QUADS_EZS_KILLED" ∷ "T86x_FRAG_THREADS_LZS_TEST" ∷ "T86x_FRAG_THREADS_LZS_KILLED"
    ∷ "T86x_FRAG_CYCLES_NO_TILE" ∷ "T86x_FRAG_NUM_TILES" ∷ "T86x_FRAG_TRANS_ELIM"
    ∷ "T86x_COMPUTE_ACTIVE" ∷ "T86x_COMPUTE_TASKS" ∷ "T86x_COMPUTE_THREADS"
    ∷ "T86x_COMPUTE_CYCLES_DESC" ∷ "T86x_TRIPIPE_ACTIVE" ∷ "T86x_ARITH_WORDS"
    ∷ "T86x_ARITH_CYCLES_REG" ∷ "T86x_ARITH_CYCLES_L0" ∷ "T86x_ARITH_FRAG_DEPEND" ∷ "T86x_LS_WORDS"
    ∷ "T86x_LS_ISSUES" ∷ "T86x_LS_REISSUE_ATTR" ∷ "T86x_LS_REISSUES_VARY" ∷ "T86x_LS_VARY_RV_MISS"
    ∷ "T86x_LS_VARY_RV_HIT" ∷ "T86x_LS_NO_UNPARK" ∷ "T86x_TEX_WORDS" ∷ "T86x_TEX_BUBBLES"
    ∷ "T86x_TEX_WORDS_L0" ∷ "T86x_TEX_WORDS_DESC" ∷ "T86x_TEX_ISSUES" ∷ "T86x_TEX_RECIRC_FMISS"
    ∷ "T86x_TEX_RECIRC_DESC" ∷ "T86x_TEX_RECIRC_MULTI" ∷ "T86x_TEX_RECIRC_PMISS"
    ∷ "T86x_TEX_RECIRC_CONF" ∷ "T86x_LSC_READ_HITS" ∷ "T86x_LSC_READ_OP" ∷ "T86x_LSC_WRITE_HITS"
    ∷ "T86x_LSC_WRITE_OP" ∷ "T86x_LSC_ATOMIC_HITS" ∷ "T86x_LSC_ATOMIC_OP" ∷ "T86x_LSC_LINE_FETCHES"
    ∷ "T86x_LSC_DIRTY_LINE" ∷ "T86x_LSC_SNOOPS" ∷ "T86x_AXI_TLB_STALL" ∷ "T86x_AXI_TLB_MISS"
    ∷ "T86x_AXI_TLB_TRANSACTION" ∷ "T86x_LS_TLB_MISS" ∷ "T86x_LS_TLB_HIT" ∷ "T86x_AXI_BEATS_READ"
    ∷ "T86x_AXI_BEATS_WRITTEN" ∷ []

abbrev pub memory_system : List String
memory_system =
    "" ∷ "" ∷ "" ∷ "" ∷ "T86x_MMU_HIT" ∷ "T86x_MMU_NEW_MISS" ∷ "T86x_MMU_REPLAY_FULL"
    ∷ "T86x_MMU_REPLAY_MISS" ∷ "T86x_MMU_TABLE_WALK" ∷ "T86x_MMU_REQUESTS" ∷ "" ∷ ""
    ∷ "T86x_UTLB_HIT" ∷ "T86x_UTLB_NEW_MISS" ∷ "T86x_UTLB_REPLAY_FULL" ∷ "T86x_UTLB_REPLAY_MISS"
    ∷ "T86x_UTLB_STALL" ∷ "" ∷ "" ∷ "" ∷ "" ∷ "" ∷ "" ∷ "" ∷ "" ∷ "" ∷ "" ∷ "" ∷ "" ∷ ""
    ∷ "T86x_L2_EXT_WRITE_BEATS" ∷ "T86x_L2_EXT_READ_BEATS" ∷ "T86x_L2_ANY_LOOKUP"
    ∷ "T86x_L2_READ_LOOKUP" ∷ "T86x_L2_SREAD_LOOKUP" ∷ "T86x_L2_READ_REPLAY" ∷ "T86x_L2_READ_SNOOP"
    ∷ "T86x_L2_READ_HIT" ∷ "T86x_L2_CLEAN_MISS" ∷ "T86x_L2_WRITE_LOOKUP" ∷ "T86x_L2_SWRITE_LOOKUP"
    ∷ "T86x_L2_WRITE_REPLAY" ∷ "T86x_L2_WRITE_SNOOP" ∷ "T86x_L2_WRITE_HIT" ∷ "T86x_L2_EXT_READ_FULL"
    ∷ "" ∷ "T86x_L2_EXT_WRITE_FULL" ∷ "T86x_L2_EXT_R_W_HAZARD" ∷ "T86x_L2_EXT_READ"
    ∷ "T86x_L2_EXT_READ_LINE" ∷ "T86x_L2_EXT_WRITE" ∷ "T86x_L2_EXT_WRITE_LINE"
    ∷ "T86x_L2_EXT_WRITE_SMALL" ∷ "T86x_L2_EXT_BARRIER" ∷ "T86x_L2_EXT_AR_STALL"
    ∷ "T86x_L2_EXT_R_BUF_FULL" ∷ "T86x_L2_EXT_RD_BUF_FULL" ∷ "T86x_L2_EXT_R_RAW"
    ∷ "T86x_L2_EXT_W_STALL" ∷ "T86x_L2_EXT_W_BUF_FULL" ∷ "T86x_L2_EXT_R_BUF_FULL"
    ∷ "T86x_L2_TAG_HAZARD" ∷ "T86x_L2_SNOOP_FULL" ∷ "T86x_L2_REPLAY_FULL" ∷ []

unfoldable pub hardware_counters : List String
hardware_counters = job_manager ++ (tiler ++ (shader ++ memory_system))
